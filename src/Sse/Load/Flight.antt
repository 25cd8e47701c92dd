-- ===== src/Sse/Load/Flight.antt =====
-- The workers that are in `oneStream`.
use senix.Prelude.{
  ℕ, zero, suc, ◌+◌, ◌≤◌, List, [], ◌∷◌, some, ◌≡◌, refl, ap, arith, length, get_elem?, replace,
  replicate,
}
use senix.Sse.Load.{Worker, waiting, streaming, done}

abbrev pub is_streaming : Worker → ℕ
is_streaming streaming = 1
is_streaming _ = 0

-- How many workers are in `oneStream`.
abbrev pub in_flight : List Worker → ℕ
in_flight [] = 0
in_flight (w ∷ workers) = is_streaming w + in_flight workers

pub in_flight-replace :
    (k : ℕ) (new : Worker) (workers : List Worker) {old : Worker}
    → get_elem? workers k ≡ some old
    → in_flight (replace k new workers) + is_streaming old ≡ in_flight workers + is_streaming new
in_flight-replace k new [] h = cc
in_flight-replace zero new (w ∷ workers) {old} h =
    let same : is_streaming w ≡ is_streaming old = ap is_streaming (same_worker h) in
    omega (arith, same)
  where
    same_worker : {a b : Worker} → some a ≡ some b → a ≡ b
    same_worker e = ground arith
in_flight-replace (suc k) new (w ∷ workers) h = omega (arith, in_flight-replace k new workers h)

pub in_flight-le-length : (workers : List Worker) → in_flight workers ≤ length workers
in_flight-le-length [] = omega arith
in_flight-le-length (streaming ∷ workers) = omega (arith, in_flight-le-length workers)
in_flight-le-length (waiting ∷ workers) = omega (arith, in_flight-le-length workers)
in_flight-le-length (done ∷ workers) = omega (arith, in_flight-le-length workers)

pub in_flight-replicate : (n : ℕ) → in_flight (replicate n waiting) ≡ 0
in_flight-replicate zero = refl
in_flight-replicate (suc n) = omega (arith, in_flight-replicate n)
