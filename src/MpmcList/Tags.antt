-- ===== src/MpmcList/Tags.antt =====
-- Tagged pointers of mpmc_list.h: the pointer comes back, and the tag tells words apart.
use footstone.Base.{
  ℕ, suc, ◌+◌, ◌/◌, ◌%◌, ◌^◌, ◌<◌, ◌≡◌, ◌≢◌, refl, ap, true, false, List, [], ◌∷◌, arith, length,
  some, eq→==, ne→==_false,
}
use footstone.MpmcList.{incr, ptr, add, tagged, compare_exchange, exchange}

-- `ptr` reads what was stored, whatever the tag.
pub ptr-tagged : (p tag : ℕ) → p < incr → ptr (tagged p tag) ≡ p
unfolding ptr tagged
ptr-tagged p tag h = omega arith

-- The next tag, which starts again after 2 ^ 16.
tag-next : (p d : ℕ) → p < incr → d < 2 ^ 64 → tagged p (add d) / incr ≡ (d / incr + 1) % 2 ^ 16
unfolding add tagged
tag-next p d h small = omega arith

tagged-lt : (p d : ℕ) → p < incr → tagged p (add d) < 2 ^ 64
unfolding add tagged
tagged-lt p d h = omega arith

-- All of them are pointers.
abbrev pub AllPointers : List ℕ → Type 0
AllPointers [] = Unit
AllPointers (p ∷ ps) = (p < incr) × AllPointers ps

-- The word after successful exchanges for the pointers in turn.
unfoldable pub after_exchanges : ℕ → List ℕ → ℕ
unfolding compare_exchange
after_exchanges word [] = word
after_exchanges word (p ∷ ps) = after_exchanges (compare_exchange word word p).0 ps

pub compare_exchange-same :
    (word p : ℕ) → compare_exchange word word p ≡ (tagged p (add word), word, true)
unfolding compare_exchange
compare_exchange-same word p = rw (eq→== word word refl) refl

exchanged : (word p : ℕ) → (compare_exchange word word p).0 ≡ tagged p (add word)
unfolding compare_exchange
exchanged word p = rw (eq→== word word refl) refl

tag-after_exchanges :
    (word : ℕ) (ps : List ℕ)
    → word < 2 ^ 64
    → AllPointers ps
    → (after_exchanges word ps / incr ≡ (word / incr + length ps) % 2 ^ 16)
      × (after_exchanges word ps < 2 ^ 64)
unfolding after_exchanges
tag-after_exchanges word [] small all = (omega arith, small)
tag-after_exchanges word (p ∷ ps) small (here, later) =
    let word' = tagged p (add word) in
    let (tag, small') = tag-after_exchanges word' ps (tagged-lt p word here) later in
    (
      rw (exchanged word p) (omega (arith, tag, tag-next p word here small)),
      rw (exchanged word p) small',
    )

-- An exchange that expects a word which was replaced meanwhile fails, also where its pointer is
-- back, if at least one and less than 2 ^ 16 exchanges, for pointers below 2 ^ 48, came between; it
-- learns the new word.
pub compare_exchange-stale :
    (word val : ℕ) (ps : List ℕ)
    → word < 2 ^ 64
    → AllPointers ps
    → 0 < length ps
    → length ps < 2 ^ 16
    → let word' = after_exchanges word ps in compare_exchange word' word val ≡ (word', word', false)
unfolding compare_exchange
compare_exchange-stale word val ps small all some_came few =
    rw (ne→==_false (after_exchanges word ps) word differs) refl
  where
    differs : after_exchanges word ps ≢ word
    differs e = omega (arith, ap (λ w. w / incr) e, (tag-after_exchanges word ps small all).0)

-- `exchange` ends in its first round where the word is the one that it has read, and the new word has the new
-- pointer.
exchange_lem :
    (word val rounds : ℕ)
    → val < incr
    → (word' : ℕ) × (exchange (suc rounds) word word val ≡ some (word', word)) × (ptr word' ≡ val)
unfolding exchange compare_exchange
exchange_lem word val rounds h =
    (tagged val (add word), rw (eq→== word word refl) refl, ptr-tagged val (add word) h)
