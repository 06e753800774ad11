-- ===== src/Access/Presented.antt =====
-- What a request brings with it: an API key, in one of the places where it may stand, or nothing at the
-- address that accepts notifications of CloudWatch.
use Prim.Native.Char
use keep_api_gateway.Prelude.{
  String, ◌⧺◌, ◌==◌, eq_iff, Bool, true, false, Option, none, some, List, [], ◌∷◌, ◌&&◌, split,
  join, join-split, lower, ◌≡◌, ◌⊎◌, inl, inr, refl, sym, ap, ◌∙◌, arith, if◌then◌else◌, Result, ok,
  err,
}
use keep_api_gateway.Access.{Refusal}
use keep_api_gateway.Access.Verifier.{
  Verifier, Request, given, Extracted, key, entity, cloudwatch_entity, extract_given, or_else,
  from_header, from_parts, with_scheme, password_key, is_none,
}

-- A text that is there and not empty, and one that is not.
abbrev pub IsSent : Option String → String → Type 0
IsSent o t = (o ≡ some t) × ((t == "") ≡ false)

abbrev pub IsMissing : Option String → Type 0
IsMissing none = Unit
IsMissing (some t) = t ≡ ""

-- A header that begins with a scheme.
abbrev pub BeginsWith : (scheme header : String) → Type 0
BeginsWith scheme header = (header ≡ scheme) ⊎ ((rest : String) × (header ≡ scheme ⧺ (" " ⧺ rest)))

-- The key of an `Authorization` header: the password of the scheme Basic, or what follows Digest.
abbrev pub IsHeaderKey : (header : String) (password : Option String) (t : String) → Type 0
IsHeaderKey header password t =
    (scheme : String) × (((lower scheme ≡ "basic") × BeginsWith scheme header × (password ≡ some t))
      ⊎ ((lower scheme ≡ "digest") × (header ≡ scheme ⧺ (" " ⧺ t))))

abbrev pub HasNoKey : Request → Type 0
HasNoKey q = IsMissing q.api_key × IsMissing q.query_api_key

-- The key of a request: of its header for keys, else of its query, else of its `Authorization`.
abbrev pub Presents : Request → String → Type 0
Presents q t =
    IsSent q.api_key t
    ⊎ ((IsMissing q.api_key × IsSent q.query_api_key t)
        ⊎ (HasNoKey q
            × ((header : String) × (q.authorization ≡ some header)
                × IsHeaderKey header q.password t)))

-- A notification of CloudWatch without any credentials, where the setting allows it.
abbrev pub IsUnauthenticated : Verifier → Request → Type 0
IsUnauthenticated v q =
    (v.allow_unauth ≡ true)
    × (q.is_sns ≡ true)
    × (q.is_cloudwatch ≡ true)
    × (q.password ≡ none)
    × HasNoKey q

-- What was found fits the request.
abbrev pub IsExtracted : Verifier → Request → Result Refusal Extracted → Type 0
IsExtracted v q (ok (entity e)) = IsUnauthenticated v q × (e ≡ cloudwatch_entity q)
IsExtracted v q (ok (key t)) = Presents q t
IsExtracted v q (err refusal) = Unit

pub given-IsSent : (o : Option String) (t : String) → given o ≡ some t → IsSent o t
given-IsSent none t h = absurd (cc)
given-IsSent (some s) t h = by_test (s == "") refl h
  where
    by_test : (b : Bool) → (s == "") ≡ b → (if b then none else some s) ≡ some t → IsSent (some s) t
    by_test true e h = absurd (cc)
    by_test false e h = (h, ap (λ x. text_of x == "") (sym h) ∙ e)
      where
        text_of : Option String → String
        text_of none = ""
        text_of (some x) = x

pub given-IsMissing : (o : Option String) → given o ≡ none → IsMissing o
given-IsMissing none h = tt
given-IsMissing (some s) h = by_test (s == "") refl h
  where
    by_test : (b : Bool) → (s == "") ≡ b → (if b then none else some s) ≡ none → s ≡ ""
    by_test true e h = (eq_iff s "").0 e
    by_test false e h = absurd (cc)

if-IsExtracted :
    (v : Verifier) (q : Request) (b : Bool) (r s : Result Refusal Extracted)
    → (b ≡ true → IsExtracted v q r)
    → (b ≡ false → IsExtracted v q s)
    → IsExtracted v q (if b then r else s)
if-IsExtracted v q true r s h k = h refl
if-IsExtracted v q false r s h k = k refl

header_of :
    (header : String) (parts : List String) → split b' ' header ≡ parts → header ≡ join " " parts
header_of header parts e = sym (join-split (Char.char 32 tt) header) ∙ ap (join " ") e

module _ (v : Verifier) (q : Request) (no_key : HasNoKey q) (header : String)
    (authorized : q.authorization ≡ some header) where
  password-IsExtracted :
      (scheme : String)
      → lower scheme ≡ "basic"
      → BeginsWith scheme header
      → (password : Option String) → q.password ≡ password
      → IsExtracted v q (password_key password)
  password-IsExtracted scheme basic begins none p = tt
  password-IsExtracted scheme basic begins (some t) p =
      inr (inr (no_key, (header, authorized, (scheme, inl (basic, begins, p)))))

  scheme-IsExtracted :
      (scheme : String) (credentials : String)
      → BeginsWith scheme header
      → ((credentials == "") ≡ false → header ≡ scheme ⧺ (" " ⧺ credentials))
      → IsExtracted v q (with_scheme (lower scheme) credentials q)
  scheme-IsExtracted scheme credentials begins whole =
      if-IsExtracted v q (lower scheme == "basic") _ _
        (λ e.
          password-IsExtracted scheme ((eq_iff (lower scheme) "basic").0 e) begins q.password refl)
        (λ e.
          if-IsExtracted v q (lower scheme == "digest") _ _
            (λ d.
              if-IsExtracted v q (credentials == "") _ _ (λ x. tt)
                (λ x. inr (
                  inr (
                    no_key,
                    (
                      header,
                      authorized,
                      (scheme, inr ((eq_iff (lower scheme) "digest").0 d, whole x)),
                    ),
                  ))))
            (λ d. tt))

  parts-IsExtracted :
      (parts : List String) → split b' ' header ≡ parts → IsExtracted v q (from_parts parts q)
  unfolding join
  parts-IsExtracted [] e = tt
  parts-IsExtracted (scheme ∷ []) e =
      scheme-IsExtracted scheme "" (inl (header_of header (scheme ∷ []) e)) (λ x. absurd (cc))
  parts-IsExtracted (scheme ∷ part ∷ parts) e =
      let whole : header ≡ scheme ⧺ (" " ⧺ join " " (part ∷ parts)) =
        header_of header (scheme ∷ part ∷ parts) e in
      scheme-IsExtracted scheme (join " " (part ∷ parts)) (inr (join " " (part ∷ parts), whole))
        (λ x. whole)

header-IsExtracted :
    (v : Verifier) (q : Request) (o : Option String)
    → HasNoKey q
    → q.authorization ≡ o
    → IsExtracted v q (from_header o q)
header-IsExtracted v q none no_key e = tt
header-IsExtracted v q (some header) no_key e =
    parts-IsExtracted v q no_key header e (split b' ' header) refl

without_password : (o : Option String) → is_none o ≡ true → o ≡ none
without_password none e = refl
without_password (some t) e = absurd (cc)

missing-IsExtracted :
    (v : Verifier) (q : Request) → HasNoKey q → IsExtracted v q (extract_given none v q)
missing-IsExtracted v q no_key =
    if-IsExtracted v q (is_none q.password && q.is_sns) _ _
      (λ e.
        if-IsExtracted v q (v.allow_unauth && q.is_cloudwatch) _ _
          (λ a. (
            (
              ground arith,
              ground arith,
              ground arith,
              without_password q.password (ground arith),
              no_key,
            ),
            refl,
          ))
          (λ a. tt))
      (λ e. header-IsExtracted v q q.authorization no_key refl)

-- `_extract_api_key` on the two places for keys.
pub keys-IsExtracted :
    (v : Verifier) (q : Request)
    → IsExtracted v q (extract_given (or_else (given q.api_key) (given q.query_api_key)) v q)
keys-IsExtracted v q = by_keys (given q.api_key) (given q.query_api_key) refl refl
  where
    by_keys :
        (sent asked : Option String)
        → given q.api_key ≡ sent
        → given q.query_api_key ≡ asked
        → IsExtracted v q (extract_given (or_else sent asked) v q)
    by_keys (some t) asked e d = inl (given-IsSent q.api_key t e)
    by_keys none (some t) e d =
        inr (inl (given-IsMissing q.api_key e, given-IsSent q.query_api_key t d))
    by_keys none none e d =
        missing-IsExtracted v q (given-IsMissing q.api_key e, given-IsMissing q.query_api_key d)
