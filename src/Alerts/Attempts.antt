-- ===== src/Alerts/Attempts.antt =====
-- How the attempts of `set_last_alert` end.
use keep_api_gateway.Prelude.{
  ℕ, zero, suc, ◌+◌, ◌≤◌, ◌<◌, String, true, false, Option, List, ◌≡◌, ◌≢◌, ◌⊎◌, inl, inr, refl,
  sym, subst, arith, Result, ok, err, ◌∙◌, if◌then◌else◌,
}
use keep_api_gateway.Prelude.Dict.{Dict}
use keep_api_gateway.Prelude.Json.{Json}
use keep_api_gateway.Alerts.{LastAlert}
use keep_api_gateway.Alerts.Lifecycle.{
  Alert, Answer, committed, integrity_error, deadlock, operational_error, no_transaction,
  internal_error, Failure, raised, is_final, after_answer, attempt, upsert, set_last_alert,
}

-- Attempt `m` ends the call: it commits, or it fails for good or as the last one.
abbrev pub IsEnd :
    (ℕ → Answer) → (ℕ → List LastAlert) → (last m : ℕ) → Result Failure (List LastAlert) → Type 0
IsEnd answer done last m result =
    ((answer m ≡ committed) × (result ≡ ok (done m)))
    ⊎ ((answer m ≢ committed)
        × (result ≡ err (raised (answer m)))
        × ((is_final (answer m) ≡ true) ⊎ (m ≡ last)))

-- An answer after which the next attempt is made.
abbrev pub IsRetried : Answer → Type 0
IsRetried a = (a ≢ committed) × (is_final a ≡ false)

abbrev pub IsSettled :
    (ℕ → Answer)
    → (ℕ → List LastAlert)
    → (first last : ℕ) → Result Failure (List LastAlert)
    → Type 0
IsSettled answer done first last result =
    (m : ℕ) × (first ≤ m)
    × (m ≤ last)
    × ((i : ℕ) → first ≤ i → i < m → IsRetried (answer i))
    × IsEnd answer done last m result

kinds : (a : Answer) → (a ≡ committed) ⊎ (((a ≢ committed) × (is_final a ≡ true)) ⊎ IsRetried a)
kinds committed = inl refl
kinds operational_error = inr (inl (λ e. cc, refl))
kinds integrity_error = inr (inr (λ e. cc, refl))
kinds deadlock = inr (inr (λ e. cc, refl))
kinds no_transaction = inr (inr (λ e. cc, refl))
kinds internal_error = inr (inr (λ e. cc, refl))

module _ (done : List LastAlert) where
  failed_last :
      (a : Answer) (retried : Result Failure (List LastAlert))
      → a ≢ committed
      → after_answer done a 0 retried ≡ err (raised a)
  unfolding after_answer
  failed_last committed retried h = absurd (h refl)
  failed_last integrity_error retried h = refl
  failed_last deadlock retried h = refl
  failed_last operational_error retried h = refl
  failed_last no_transaction retried h = refl
  failed_last internal_error retried h = refl

  failed_earlier :
      (a : Answer) (left : ℕ) (retried : Result Failure (List LastAlert))
      → a ≢ committed
      → after_answer done a (suc left) retried ≡ (if is_final a then err (raised a) else retried)
  unfolding after_answer
  failed_earlier committed left retried h = absurd (h refl)
  failed_earlier integrity_error left retried h = refl
  failed_earlier deadlock left retried h = refl
  failed_earlier operational_error left retried h = refl
  failed_earlier no_transaction left retried h = refl
  failed_earlier internal_error left retried h = refl

  failed_for_good :
      (a : Answer) (left : ℕ) (retried : Result Failure (List LastAlert))
      → a ≢ committed
      → is_final a ≡ true
      → after_answer done a left retried ≡ err (raised a)
  failed_for_good a zero retried h final = failed_last a retried h
  failed_for_good a (suc left) retried h final = failed_earlier a left retried h ∙ rw final refl

  commits :
      (a : Answer) (left : ℕ) (retried : Result Failure (List LastAlert))
      → a ≡ committed
      → after_answer done a left retried ≡ ok done
  unfolding after_answer
  commits a left retried e = rw e refl

module _ (done : ℕ → List LastAlert) (answer : ℕ → Answer) where
  at_once :
      (n last : ℕ) (result : Result Failure (List LastAlert))
      → n ≤ last
      → IsEnd answer done last n result
      → IsSettled answer done n last result
  at_once n last result le end =
      (n, omega arith, le, (λ i low high. absurd (omega (arith, low, high))), end)

  one_later :
      (n last : ℕ) (result : Result Failure (List LastAlert))
      → IsRetried (answer n)
      → IsSettled answer done (suc n) last result
      → IsSettled answer done n last result
  one_later n last result retried (m, low, high, before, end) =
      (m, omega (arith, low), high, λ i from to. by_first i to (first_or_later i from), end)
    where
      first_or_later : (i : ℕ) → n ≤ i → (n ≡ i) ⊎ (suc n ≤ i)
      first_or_later i from = ground arith

      by_first : (i : ℕ) → i < m → (n ≡ i) ⊎ (suc n ≤ i) → IsRetried (answer i)
      by_first i to (inl e) = subst (λ x. IsRetried (answer x)) e retried
      by_first i to (inr later) = before i later to

  attempt-IsSettled :
      (left n : ℕ) → IsSettled answer done n (n + left) (attempt answer done (suc left) n)
  unfolding attempt
  attempt-IsSettled zero n = at_once n (n + 0) _ (omega arith) (last_one (kinds (answer n)))
    where
      last_one :
          (answer n ≡ committed)
            ⊎ (((answer n ≢ committed) × (is_final (answer n) ≡ true)) ⊎ IsRetried (answer n))
          → IsEnd answer done
              (n + 0)
              n
              (after_answer (done n) (answer n) 0 (attempt answer done 0 (suc n)))
      last_one (inl e) = inl (e, commits (done n) (answer n) 0 (attempt answer done 0 (suc n)) e)
      last_one (inr (inl (failed, final))) = inr (
        failed,
        failed_last (done n) (answer n) (attempt answer done 0 (suc n)) failed,
        inl final,
      )
      last_one (inr (inr (failed, retried))) = inr (
        failed,
        failed_last (done n) (answer n) (attempt answer done 0 (suc n)) failed,
        inr (omega arith),
      )
  attempt-IsSettled (suc left) n = with_rest (kinds (answer n)) (attempt-IsSettled left (suc n))
    where
      rest : Result Failure (List LastAlert)
      rest = attempt answer done (suc left) (suc n)

      with_rest :
          (answer n ≡ committed)
            ⊎ (((answer n ≢ committed) × (is_final (answer n) ≡ true)) ⊎ IsRetried (answer n))
          → IsSettled answer done (suc n) (suc n + left) rest
          → IsSettled answer done n
              (n + suc left)
              (after_answer (done n) (answer n) (suc left) rest)
      with_rest (inl e) later =
          at_once n (n + suc left) (after_answer (done n) (answer n) (suc left) rest) (omega arith)
            (inl (e, commits (done n) (answer n) (suc left) rest e))
      with_rest (inr (inl (failed, final))) later =
          at_once n (n + suc left) (after_answer (done n) (answer n) (suc left) rest) (omega arith)
            (inr
              (failed, failed_for_good (done n) (answer n) (suc left) rest failed final, inl final))
      with_rest (inr (inr (failed, retried))) later =
          let passed : after_answer (done n) (answer n) (suc left) rest ≡ rest =
            failed_earlier (done n) (answer n) left rest failed ∙ rw retried refl in
          let same_last : suc n + left ≡ n + suc left = omega arith in
          one_later n (n + suc left) (after_answer (done n) (answer n) (suc left) rest)
            (failed, retried)
            (subst (λ r. IsSettled answer done (suc n) (n + suc left) r) (sym passed)
              (subst (λ x. IsSettled answer done (suc n) x rest) same_last later))

-- With at least one attempt allowed, `set_last_alert` ends with one of them, the first that commits or
-- cannot be tried again, or else the last: if that attempt commits, it returns the table that this
-- attempt read, with the alert stored in it once, and it raises the exception of that attempt
-- otherwise. The RuntimeError after the attempts is not raised.
pub set_last_alert-IsSettled :
    (answer : ℕ → Answer) (retries : ℕ) (t : String) (alert : Alert) (values : Option (Dict Json))
    (tables : ℕ → List LastAlert)
    → IsSettled answer
        (λ n. upsert t alert values (tables n))
        1
        (suc retries)
        (set_last_alert answer (suc retries) t alert values tables)
unfolding set_last_alert
set_last_alert-IsSettled answer retries t alert values tables =
    let done : ℕ → List LastAlert = λ n. upsert t alert values (tables n) in
    let same_last : 1 + retries ≡ suc retries = omega arith in
    subst (λ last. IsSettled answer done 1 last (attempt answer done (suc retries) 1)) same_last
      (attempt-IsSettled done answer retries 1)
