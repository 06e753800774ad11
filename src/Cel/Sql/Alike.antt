-- ===== src/Cel/Sql/Alike.antt =====
-- Two SQL texts that differ only in what their literals say.
use text.Mathlib.TextLemmas.{append_assoc}
use keep_api_gateway.Prelude.{
  subst, String, ◌⧺◌, true, List, [], ◌∷◌, ◌≡◌, refl, ap, sym, ◌∙◌, ok, err, ◌>>=◌, join,
}
use keep_api_gateway.Cel.Sql.Scan.{
  outside, place, bare, IsEnded, begins_plain, place-append, bare-append, place-ended, bare-ended,
  IsSaid, quoted-place, quoted-bare, no_quote, place-no_quote_outside,
}
use keep_api_gateway.Cel.Sql.Dialect.{Sql}

pub record Alike (s t : String) : Type 0 where
  pub same : bare outside s ≡ bare outside t
  pub ended_left : IsEnded (place outside s)
  pub ended_right : IsEnded (place outside t)

pub same-Alike : (s : String) → IsEnded (place outside s) → Alike s s
same-Alike s e = record { same = refl; ended_left = e; ended_right = e }

pub no_quote-Alike : (s : String) → no_quote s ≡ true → Alike s s
no_quote-Alike s h = same-Alike s (subst IsEnded (sym (place-no_quote_outside s h)) tt)

pub quoted-Alike : (s t : String) → IsSaid s → IsSaid t → Alike ("'" ⧺ (s ⧺ "'")) ("'" ⧺ (t ⧺ "'"))
quoted-Alike s t a b = record {
  same = quoted-bare s a ∙ sym (quoted-bare t b);
  ended_left = subst IsEnded (sym (quoted-place s a)) tt;
  ended_right = subst IsEnded (sym (quoted-place t b)) tt;
}

-- A fixed text in front, whose literals are closed.
pub lead-Alike :
    (text s t : String) → place outside text ≡ outside → Alike s t → Alike (text ⧺ s) (text ⧺ t)
lead-Alike text s t h a = record {
  same = lead_bare s ∙ ap (λ x. bare outside text ⧺ x) a.same ∙ sym (lead_bare t);
  ended_left = subst IsEnded (sym (lead_place s)) a.ended_left;
  ended_right = subst IsEnded (sym (lead_place t)) a.ended_right;
}
  where
    lead_bare : (x : String) → bare outside (text ⧺ x) ≡ bare outside text ⧺ bare outside x
    lead_bare x = bare-append outside text x ∙ ap (λ p. bare outside text ⧺ bare p x) h

    lead_place : (x : String) → place outside (text ⧺ x) ≡ place outside x
    lead_place x = place-append outside text x ∙ ap (λ p. place p x) h

-- A fixed text that begins with no quote follows.
abbrev pub IsPlain : String → Type 0
IsPlain text = (begins_plain text ≡ true) × (place outside text ≡ outside)

ended_by :
    (s text : String)
    → IsEnded (place outside s)
    → IsPlain text
    → place outside (s ⧺ text) ≡ outside
ended_by s text e h = place-append outside s text ∙ place-ended (place outside s) text e h.0 ∙ h.1

bare_by :
    (s text : String)
    → IsEnded (place outside s)
    → IsPlain text
    → bare outside (s ⧺ text) ≡ bare outside s ⧺ bare outside text
bare_by s text e h =
    bare-append outside s text
    ∙ ap (λ x. bare outside s ⧺ x) (bare-ended (place outside s) text e h.0)

pub trail-Alike : (s t text : String) → IsPlain text → Alike s t → Alike (s ⧺ text) (t ⧺ text)
trail-Alike s t text h a = record {
  same =
      bare_by s text a.ended_left h
      ∙ ap (λ x. x ⧺ bare outside text) a.same
      ∙ sym (bare_by t text a.ended_right h);
  ended_left = subst IsEnded (sym (ended_by s text a.ended_left h)) tt;
  ended_right = subst IsEnded (sym (ended_by t text a.ended_right h)) tt;
}

-- A fixed text between two.
pub glue-Alike :
    (s t text s' t' : String)
    → IsPlain text
    → Alike s t
    → Alike s' t'
    → Alike (s ⧺ (text ⧺ s')) (t ⧺ (text ⧺ t'))
glue-Alike s t text s' t' h a b = record {
  same =
      glued_bare s s' a.ended_left
      ∙ ap (λ x. (x ⧺ bare outside text) ⧺ bare outside s') a.same
      ∙ ap (λ x. (bare outside t ⧺ bare outside text) ⧺ x) b.same
      ∙ sym (glued_bare t t' a.ended_right);
  ended_left = subst IsEnded (sym (glued_place s s' a.ended_left)) b.ended_left;
  ended_right = subst IsEnded (sym (glued_place t t' a.ended_right)) b.ended_right;
}
  where
    glued_place :
        (x y : String)
        → IsEnded (place outside x)
        → place outside (x ⧺ (text ⧺ y)) ≡ place outside y
    glued_place x y e =
        ap (place outside) (sym (append_assoc x text y))
        ∙ place-append outside (x ⧺ text) y
        ∙ ap (λ p. place p y) (ended_by x text e h)

    glued_bare :
        (x y : String)
        → IsEnded (place outside x)
        → bare outside (x ⧺ (text ⧺ y)) ≡ (bare outside x ⧺ bare outside text) ⧺ bare outside y
    glued_bare x y e =
        ap (bare outside) (sym (append_assoc x text y))
        ∙ bare-append outside (x ⧺ text) y
        ∙ ap (λ p. bare outside (x ⧺ text) ⧺ bare p y) (ended_by x text e h)
        ∙ ap (λ z. z ⧺ bare outside y) (bare_by x text e h)

pub pair-Alike :
    (before text after s t s' t' : String)
    → place outside before ≡ outside
    → IsPlain text
    → IsPlain after
    → Alike s t
    → Alike s' t'
    → Alike (before ⧺ (s ⧺ (text ⧺ (s' ⧺ after)))) (before ⧺ (t ⧺ (text ⧺ (t' ⧺ after))))
pair-Alike before text after s t s' t' b h k a a' =
    lead-Alike before _ _ b (glue-Alike s t text _ _ h a (trail-Alike s' t' after k a'))

pub wrap-Alike :
    (before after s t : String)
    → place outside before ≡ outside
    → IsPlain after
    → Alike s t
    → Alike (before ⧺ (s ⧺ after)) (before ⧺ (t ⧺ after))
wrap-Alike before after s t b k a = lead-Alike before _ _ b (trail-Alike s t after k a)

-- Lists of texts, one by one.
abbrev pub AreAlike : List String → List String → Type 0
AreAlike [] [] = Unit
AreAlike (s ∷ ss) (t ∷ ts) = Alike s t × AreAlike ss ts
AreAlike _ _ = ⊥

pub join-Alike :
    (text : String) (ss ts : List String)
    → IsPlain text
    → AreAlike ss ts
    → Alike (join text ss) (join text ts)
unfolding join place
join-Alike text [] [] h a = record { same = refl; ended_left = tt; ended_right = tt }
join-Alike text [] (t ∷ ts) h a = absurd a
join-Alike text (s ∷ ss) [] h a = absurd a
join-Alike text (s ∷ []) (t ∷ []) h a = a.0
join-Alike text (s ∷ []) (t ∷ u ∷ ts) h a = absurd a.1
join-Alike text (s ∷ u ∷ ss) (t ∷ []) h a = absurd a.1
join-Alike text (s ∷ u ∷ ss) (t ∷ v ∷ ts) h a =
    glue-Alike s t text _ _ h a.0 (join-Alike text (u ∷ ss) (v ∷ ts) h a.1)

-- Both are refused alike, or both give texts that are alike.
abbrev pub AlikeSql : Sql → Sql → Type 0
AlikeSql (ok s) (ok t) = Alike s t
AlikeSql (err a) (err b) = a ≡ b
AlikeSql _ _ = ⊥

pub bind-AlikeSql :
    (r r' : Sql) (f g : String → Sql)
    → AlikeSql r r'
    → ((s t : String) → Alike s t → AlikeSql (f s) (g t))
    → AlikeSql (r >>= f) (r' >>= g)
bind-AlikeSql (ok s) (ok t) f g a k = k s t a
bind-AlikeSql (err a) (err b) f g h k = h
bind-AlikeSql (ok s) (err b) f g h k = absurd h
bind-AlikeSql (err a) (ok t) f g h k = absurd h
