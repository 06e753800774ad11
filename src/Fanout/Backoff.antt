-- ===== src/Fanout/Backoff.antt =====
-- The delay between two attempts to subscribe.
use keep_api_gateway.Prelude.{
  ap, sym, ℕ, zero, suc, ◌+◌, ◌*◌, ◌-◌, ◌^◌, ◌≤◌, ◌<◌, min, Bool, true, false, List, [], ◌∷◌, ◌∙◌,
  ◌≡◌, ◌↔◌, refl, arith, replicate,
}
use keep_api_gateway.Fanout.{
  Fanout, Happening, acknowledged, lost, other_publish, happen, happens, no_pong, check,
}

pow_two_positive : (k : ℕ) → (q : ℕ) × (2 ^ k ≡ q + 1)
pow_two_positive zero = (0, refl)
pow_two_positive (suc k) = let r = pow_two_positive k in (2 * r.0 + 1, omega (arith, r.1))

min_twice : (a m q : ℕ) → min (min a m * (q + 1)) m ≡ min (a * (q + 1)) m
min_twice a m q = ground arith

min_double : (d m p q : ℕ) → p ≡ q + 1 → min (min (d * 2) m * p) m ≡ min (d * (2 * p)) m
min_double d m p q e = rw e (min_twice (d * 2) m q ∙ ground arith)

two_pow : (k : ℕ) → 2 ^ suc k ≡ 2 * 2 ^ k
two_pow k = omega arith

-- After `k` losses in a row the delay has doubled `k` times, up to its bound.
lose-delay :
    (k : ℕ) (f : Fanout)
    → f.delay ≤ f.max_reconnect_delay
    → (happens (replicate k lost) f).delay ≡ min (f.delay * 2 ^ k) f.max_reconnect_delay
unfolding happens
lose-delay zero f h = ground arith
lose-delay (suc k) f h =
    lose-delay k (happen lost f) (ground arith)
    ∙ min_double f.delay f.max_reconnect_delay (2 ^ k) (pow_two_positive k).0 (pow_two_positive k).1
    ∙ ap (λ p. min (f.delay * p) f.max_reconnect_delay) (sym (two_pow k))

-- The delay never exceeds its bound when neither the present nor the initial one does.
happens-delay_bound :
    (hs : List Happening) (f : Fanout)
    → f.delay ≤ f.max_reconnect_delay
    → f.initial_delay ≤ f.max_reconnect_delay
    → (happens hs f).delay ≤ f.max_reconnect_delay
unfolding happens
happens-delay_bound [] f h i = h
happens-delay_bound (acknowledged ∷ hs) f h i = happens-delay_bound hs (happen acknowledged f) i i
happens-delay_bound (lost ∷ hs) f h i = happens-delay_bound hs (happen lost f) (ground arith) i
happens-delay_bound (other_publish true ∷ hs) f h i =
    happens-delay_bound hs (happen (other_publish true) f) h i
happens-delay_bound (other_publish false ∷ hs) f h i =
    happens-delay_bound hs (happen (other_publish false) f) h i

-- The loop gives up a subscription only after the whole of both intervals without a word, and it does
-- so at any look later than that.
check-no_pong :
    (f : Fanout) (now last_heard : ℕ) (pinged : Bool)
    → (check f now last_heard pinged ≡ no_pong)
      ↔ (f.ping_interval + f.pong_timeout < now - last_heard)
unfolding check
check-no_pong f now last_heard pinged = (λ e. ground arith, λ h. ground arith)
