-- ===== src/Codec/Socket/Stream.antt =====
-- common/src/codec.cpp: what read_exact reads of a stream, and what it leaves.
use network_final_project.Base.{
  ℕ, zero, suc, ◌-◌, ◌≤◌, ◌≡◌, refl, ◌∙◌, ap, Bool, true, false, List, [], ◌∷◌, ◌++◌, arith, length,
  take, drop,
}
use network_final_project.Codec.Socket.{
  Event, arrived, interrupted, failed, left_over, Reading, read_exact,
}

-- The bytes that the events carry.
abbrev pub bytes_of : List Event → List ℕ
bytes_of [] = []
bytes_of (arrived bs ∷ events) = bs ++ bytes_of events
bytes_of (interrupted ∷ events) = bytes_of events
bytes_of (failed ∷ events) = bytes_of events

-- No call fails but by EINTR, and no call gives no bytes.
abbrev pub is_live : List Event → Bool
is_live [] = true
is_live (arrived [] ∷ events) = false
is_live (arrived (b ∷ bs) ∷ events) = is_live events
is_live (interrupted ∷ events) = is_live events
is_live (failed ∷ events) = false

bytes_of-left_over :
    (bs : List ℕ) (events : List Event) → bytes_of (left_over bs events) ≡ bs ++ bytes_of events
bytes_of-left_over [] events = refl
bytes_of-left_over (b ∷ bs) events = refl

is_live-left_over :
    (bs : List ℕ) (events : List Event)
    → is_live events ≡ true
    → is_live (left_over bs events) ≡ true
is_live-left_over [] events h = h
is_live-left_over (b ∷ bs) events h = h

take_short : (n : ℕ) (xs ys : List ℕ) → n ≤ length xs → take n (xs ++ ys) ≡ take n xs
take_short zero xs ys h = refl
take_short (suc n) [] ys h = absurd (omega arith)
take_short (suc n) (x ∷ xs) ys h = ap (◌∷◌ x) (take_short n xs ys (omega arith))

drop_short : (n : ℕ) (xs ys : List ℕ) → n ≤ length xs → drop n (xs ++ ys) ≡ drop n xs ++ ys
drop_short zero xs ys h = refl
drop_short (suc n) [] ys h = absurd (omega arith)
drop_short (suc n) (x ∷ xs) ys h = drop_short n xs ys (omega arith)

take_long :
    (n : ℕ) (xs ys : List ℕ) → length xs ≤ n → take n (xs ++ ys) ≡ xs ++ take (n - length xs) ys
take_long n [] ys h = ap (λ k. take k ys) (omega arith)
take_long zero (x ∷ xs) ys h = absurd (omega arith)
take_long (suc n) (x ∷ xs) ys h =
    ap (◌∷◌ x) (take_long n xs ys (omega arith) ∙ ap (λ k. xs ++ take k ys) (omega arith))

drop_long : (n : ℕ) (xs ys : List ℕ) → length xs ≤ n → drop n (xs ++ ys) ≡ drop (n - length xs) ys
drop_long n [] ys h = ap (λ k. drop k ys) (omega arith)
drop_long zero (x ∷ xs) ys h = absurd (omega arith)
drop_long (suc n) (x ∷ xs) ys h =
    drop_long n xs ys (omega arith) ∙ ap (λ k. drop k ys) (omega arith)

-- What `read_exact` has done of `n` bytes, and what it has left.
abbrev pub Delivered : List Event → ℕ → Reading → Type 0
Delivered events n r =
    (r.bytes ≡ take n (bytes_of events))
    × (bytes_of r.events ≡ drop n (bytes_of events))
    × (is_live r.events ≡ true)
    × (r.is_error ≡ false)

-- Whatever the cuts and the interrupts of a stream that lives, `read_exact` reads its first bytes,
-- as many as it is asked for or as there are, and leaves those behind them.
pub read_exact_lem :
    (events : List Event) (n : ℕ) → is_live events ≡ true → Delivered events n (read_exact events n)
unfolding read_exact
read_exact_lem events zero live = (refl, refl, live, refl)
read_exact_lem [] (suc n) live = (refl, refl, refl, refl)
read_exact_lem (interrupted ∷ events) (suc n) live = read_exact_lem events (suc n) live
read_exact_lem (failed ∷ events) (suc n) live = absurd (ground arith)
read_exact_lem (arrived [] ∷ events) (suc n) live = absurd (ground arith)
read_exact_lem (arrived (b ∷ bs) ∷ events) (suc n) live =
    let (read, left, lives, fine) = read_exact_lem events (suc n - length (b ∷ bs)) live in
    let all = b ∷ bs in
    let past = bytes_of events in
    (
      ground (arith, read, take_short n bs past, take_long n bs past),
      ground (
        arith,
        left,
        drop_short n bs past,
        drop_long n bs past,
        bytes_of-left_over (drop n bs) events,
      ),
      ground (arith, lives, is_live-left_over (drop n bs) events live),
      ground (arith, fine),
    )
