-- ===== src/Cel/Sql/Scan.antt =====
-- How SQL is read: what stands in text literals, and what stands outside of them. In a literal a quote
-- followed by a quote stands for one.
use Prim.Native.Char.{Char, code}
use text.Mathlib.TextLemmas.{
  nil-append, cons-append, cons≢nil, head-eq_of_cons-eq, tail-eq_of_cons-eq,
}
use keep_api_gateway.Prelude.{
  String, ◌⧺◌, Bool, true, false, ◌&&◌, not, nat_eq, ◌≡◌, refl, ap, sym, ◌∙◌,
}

-- Outside of literals, inside of one, and after a quote inside of one.
pub data Place : Type 0 where
  outside within after_quote : Place

abbrev pub is_quote : Char → Bool
is_quote c = nat_eq (code c) b'\''

abbrev pub next : Place → Bool → Place
next outside true = within
next outside false = outside
next within true = after_quote
next within false = within
next after_quote true = within
next after_quote false = outside

-- The place after a text.
unfoldable pub place : Place → String → Place
place p String.[] = p
place p (String.◌∷◌ c s) = place (next p (is_quote c)) s

abbrev pub emit : Place → Bool → Char → String → String
emit outside q c s = String.◌∷◌ c s
emit within q c s = s
emit after_quote true c s = s
emit after_quote false c s = String.◌∷◌ c s

-- A text without what its literals say.
unfoldable pub bare : Place → String → String
bare p String.[] = ""
bare p (String.◌∷◌ c s) = emit p (is_quote c) c (bare (next p (is_quote c)) s)

pub place-append : (p : Place) (s t : String) → place p (s ⧺ t) ≡ place (place p s) t
unfolding place
place-append p String.[] t = ap (place p) (nil-append t)
place-append p (String.◌∷◌ c s) t =
    ap (place p) (cons-append c s t) ∙ place-append (next p (is_quote c)) s t

emit-append :
    (p : Place) (q : Bool) (c : Char) (s t : String) → emit p q c (s ⧺ t) ≡ emit p q c s ⧺ t
emit-append outside q c s t = sym (cons-append c s t)
emit-append within q c s t = refl
emit-append after_quote true c s t = refl
emit-append after_quote false c s t = sym (cons-append c s t)

pub bare-append : (p : Place) (s t : String) → bare p (s ⧺ t) ≡ bare p s ⧺ bare (place p s) t
unfolding place bare
bare-append p String.[] t = ap (bare p) (nil-append t) ∙ sym (nil-append (bare p t))
bare-append p (String.◌∷◌ c s) t =
    ap (bare p) (cons-append c s t)
    ∙ ap (emit p (is_quote c) c) (bare-append (next p (is_quote c)) s t)
    ∙ emit-append p (is_quote c) c (bare (next p (is_quote c)) s) _

-- The text ends outside of its literals.
abbrev pub IsEnded : Place → Type 0
IsEnded outside = Unit
IsEnded within = ⊥
IsEnded after_quote = Unit

-- A text that begins with no quote closes the literal before it.
unfoldable pub begins_plain : String → Bool
begins_plain String.[] = false
begins_plain (String.◌∷◌ c s) = not (is_quote c)

pub place-ended :
    (p : Place) (s : String) → IsEnded p → begins_plain s ≡ true → place p s ≡ place outside s
unfolding place begins_plain
place-ended p String.[] e b = absurd (cc)
place-ended outside (String.◌∷◌ c s) e b = refl
place-ended after_quote (String.◌∷◌ c s) e b = ap (λ x. place x s) (next_plain (is_quote c) b)
  where
    next_plain : (q : Bool) → not q ≡ true → next after_quote q ≡ next outside q
    next_plain true b = absurd (cc)
    next_plain false b = refl
place-ended within s e b = absurd e

pub bare-ended :
    (p : Place) (s : String) → IsEnded p → begins_plain s ≡ true → bare p s ≡ bare outside s
unfolding bare begins_plain
bare-ended p String.[] e b = absurd (cc)
bare-ended outside (String.◌∷◌ c s) e b = refl
bare-ended after_quote (String.◌∷◌ c s) e b = emit_plain (is_quote c) c s b
  where
    emit_plain :
        (q : Bool) (c : Char) (s : String)
        → not q ≡ true
        → emit after_quote q c (bare (next after_quote q) s)
          ≡ emit outside q c (bare (next outside q) s)
    emit_plain true c s b = absurd (cc)
    emit_plain false c s b = refl
bare-ended within s e b = absurd e

unfoldable pub no_quote : String → Bool
no_quote String.[] = true
no_quote (String.◌∷◌ c s) = not (is_quote c) && no_quote s

plain_parts : (q rest : Bool) → (not q && rest) ≡ true → (q ≡ false) × (rest ≡ true)
plain_parts true rest h = absurd (cc)
plain_parts false rest h = (refl, h)

pub place-no_quote_outside : (s : String) → no_quote s ≡ true → place outside s ≡ outside
unfolding place no_quote
place-no_quote_outside String.[] h = refl
place-no_quote_outside (String.◌∷◌ c s) h =
    let k = plain_parts (is_quote c) (no_quote s) h in
    ap (λ q. place (next outside q) s) k.0 ∙ place-no_quote_outside s k.1

-- What a literal says: it stays within the literal, and nothing of it is seen outside.
pub record IsSaid (s : String) : Type 0 where
  pub stays : place within s ≡ within
  pub hidden : bare within s ≡ ""

pub no_quote-IsSaid : (s : String) → no_quote s ≡ true → IsSaid s
unfolding place bare no_quote
no_quote-IsSaid String.[] h = record { stays = refl; hidden = refl }
no_quote-IsSaid (String.◌∷◌ c s) h =
    let k = plain_parts (is_quote c) (no_quote s) h in
    let rest = no_quote-IsSaid s k.1 in
    record {
      stays = ap (λ q. place (next within q) s) k.0 ∙ rest.stays;
      hidden = ap (λ q. bare (next within q) s) k.0 ∙ rest.hidden;
    }

pub append-IsSaid : (s t : String) → IsSaid s → IsSaid t → IsSaid (s ⧺ t)
append-IsSaid s t a b = record {
  stays = place-append within s t ∙ ap (λ p. place p t) a.stays ∙ b.stays;
  hidden =
      bare-append within s t
      ∙ ap (λ x. x ⧺ bare (place within s) t) a.hidden
      ∙ nil-append (bare (place within s) t)
      ∙ ap (λ p. bare p t) a.stays
      ∙ b.hidden;
}

-- The quotes around what is said.
pub quoted-place : (s : String) → IsSaid s → place outside ("'" ⧺ (s ⧺ "'")) ≡ after_quote
unfolding place
quoted-place s h =
    place-append outside "'" (s ⧺ "'") ∙ place-append within s "'" ∙ ap (λ p. place p "'") h.stays

pub quoted-bare : (s : String) → IsSaid s → bare outside ("'" ⧺ (s ⧺ "'")) ≡ "'"
unfolding place bare
quoted-bare s h =
    bare-append outside "'" (s ⧺ "'")
    ∙ ap (λ x. "'" ⧺ x)
        (bare-append within s "'"
          ∙ ap (λ x. x ⧺ bare (place within s) "'") h.hidden
          ∙ nil-append (bare (place within s) "'")
          ∙ ap (λ p. bare p "'") h.stays)

-- A text with nothing of a literal in it is seen as it is.
pub bare-no_quote : (s x : String) → bare outside s ≡ x → no_quote x ≡ true → s ≡ x
unfolding bare no_quote
bare-no_quote String.[] x e h = e
bare-no_quote (String.◌∷◌ c s) String.[] e h = absurd (cons≢nil e)
bare-no_quote (String.◌∷◌ c s) (String.◌∷◌ d x) e h =
    let k = plain_parts (is_quote d) (no_quote x) h in
    let same : c ≡ d = head-eq_of_cons-eq e in
    let plain : is_quote c ≡ false = ap is_quote same ∙ k.0 in
    ap (λ a. String.◌∷◌ a s) same
    ∙ ap (String.◌∷◌ d) (
        bare-no_quote s x (ap (λ q. bare (next outside q) s) (sym plain) ∙ tail-eq_of_cons-eq e)
          k.1)
