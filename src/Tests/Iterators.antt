-- ===== src/Tests/Iterators.antt =====
-- A result about iterators side by side at a concrete input.
use lancelot.Base.{refl, [], ◌∷◌, Bytes, bytes_lt, arith}
use lancelot.Store.Kv.{ended, item}
use lancelot.Store.Merge.{IterScan, new_iter_scan, until}
use lancelot.Store.Merge.Seek.{IsSeeking, Answers, pending, until-Answers}

-- The keys 1 5 and 1 7 below the prefix 1.
abbrev iter : IterScan Bytes
iter = new_iter_scan (1 ∷ []) 0 (item (1 ∷ 5 ∷ []) (8 ∷ []) (item (1 ∷ 7 ∷ []) (9 ∷ []) ended))

iter-IsSeeking : IsSeeking iter
unfolding bytes_lt new_iter_scan
iter-IsSeeking = record {
  order = ((refl, tt), (tt, tt));
  below = ((5 ∷ [], refl), ((7 ∷ [], refl), tt));
  unbroken = refl;
  fresh = λ e. refl;
}

until-Answers_example : Answers iter.prefix (7 ∷ []) (pending iter) (until (7 ∷ []) iter)
until-Answers_example =
    until-Answers (7 ∷ []) iter iter-IsSeeking (λ e n. absurd (ground (arith, n)))
