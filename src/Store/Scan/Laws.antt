-- ===== src/Store/Scan/Laws.antt =====
-- What List brings: the entries of the range, in the order of their keys.
use lancelot.Base.{
  ℕ, ◌+◌, ◌-◌, ◌≤◌, ◌≡◌, Bool, true, false, ◌&&◌, Option, none, some, List, [], ◌∷◌, arith, leb,
  if◌then◌else◌, Bytes, All, take, length, bytes_lt, bytes_le, bytes_eq,
}
use lancelot.Store.Kv.{Kv, Found, found, missing, failed, Cursor, ended, broken, item}
use lancelot.Store.Error.{Error, fault, reach_limit}
use lancelot.Store.Txn.{Txn}
use lancelot.Store.Scan.{list_loop, list}

-- A key and its value.
abbrev pub Entry : Type 0
Entry = Bytes × Bytes

abbrev pub entries : {F : Type 0} → Cursor F → List Entry
entries ended = []
entries (broken f) = []
entries (item k v rest) = (k, v) ∷ entries rest

-- How the iterator ends.
abbrev pub ending : {F : Type 0} → Cursor F → Option (Error F)
ending ended = none
ending (broken f) = some (fault f)
ending (item k v rest) = ending rest

abbrev pub in_range : Bytes → Bytes → Bytes → Bool
in_range start end k = bytes_le start k && bytes_lt k end

abbrev pub AreWithin : Bytes → Bytes → List Entry → Type 0
AreWithin start end = All (λ e. in_range start end e.0 ≡ true)

abbrev pub fold {ℓ} : {S : Type ℓ} → (S → Bytes → Bytes → S) → S → List Entry → S
fold f s [] = s
fold f s ((k, v) ∷ es) = fold f (f s k v) es

-- What List with a callback that never stops makes of entries of the range, with `left` more before
-- its limit.
abbrev pub bounded :
    {F : Type 0} {S : Type 0} → ℕ → (S → Bytes → Bytes → S) → S → Cursor F → Option (Error F) × S
bounded left f s c =
    if leb left (length (entries c))
    then (some reach_limit, fold f s (take left (entries c)))
    else (ending c, fold f s (entries c))

list_loop-bounded :
    {F : Type 0} {S : Type 0} (c : Cursor F) (start end : Bytes) (limit count left : ℕ)
    (f : S → Bytes → Bytes → S) (s : S)
    → AreWithin start end (entries c)
    → limit ≡ count + left
    → 1 ≤ left
    → list_loop c start end limit count (λ x k v. (true, f x k v)) s ≡ bounded left f s c
unfolding list_loop
list_loop-bounded ended start end limit count left f s h e p = ground arith
list_loop-bounded (broken x) start end limit count left f s h e p = ground arith
list_loop-bounded (item k v rest) start end limit count left f s h e p =
    ground (arith, list_loop-bounded rest start end limit (count + 1) (left - 1) f (f s k v) h.1)

-- What the iterators of the client library bring, where they do not fail: the entries that a read
-- finds, in the order of their keys.
abbrev pub Above : Bytes → List Entry → Type 0
Above k = All (λ e. bytes_lt k e.0 ≡ true)

abbrev pub IsAscending : List Entry → Type 0
IsAscending [] = Unit
IsAscending (e ∷ es) = Above e.0 es × IsAscending es

abbrev pub lookup : List Entry → Bytes → Option Bytes
lookup [] k = none
lookup ((j, v) ∷ es) k = let later = lookup es k in if bytes_eq j k then some v else later

abbrev pub Agrees : {F : Type 0} → Found F → Option Bytes → Type 0
Agrees (found v) o = o ≡ some v
Agrees missing o = o ≡ none
Agrees (failed f) o = Unit

-- A list of entries with one more, or with another value.
abbrev pub upsert : Bytes → Bytes → List Entry → List Entry
upsert k v [] = (k, v) ∷ []
upsert k v ((j, w) ∷ es) =
    let later = upsert k v es in
    if bytes_lt j k
    then (j, w) ∷ later
    else if bytes_eq j k
    then (k, v) ∷ es
    else (k, v) ∷ (j, w) ∷ es

-- A list of entries without a key.
abbrev pub remove : Bytes → List Entry → List Entry
remove k [] = []
remove k ((j, w) ∷ es) = let later = remove k es in if bytes_eq j k then es else (j, w) ∷ later

-- An iterator merges the transaction's own writes into the snapshot. It may end with an error.
pub record ScanLaws (kv : Kv) : Type 0 where
  pub ascending : (s : kv.Store) (start end : Bytes) → IsAscending (entries (kv.iter s start end))
  pub within :
      (s : kv.Store) (start end : Bytes) → AreWithin start end (entries (kv.iter s start end))
  pub lookup-get :
      (s : kv.Store) (start end k : Bytes)
      → ending (kv.iter s start end) ≡ none
      → in_range start end k ≡ true
      → Agrees (kv.get s k) (lookup (entries (kv.iter s start end)) k)
  pub iter-put :
      (s : kv.Store) (start end k v : Bytes)
      → in_range start end k ≡ true
      → (kv.put s k v).0 ≡ none
      → ending (kv.iter s start end) ≡ none
      → ending (kv.iter (kv.put s k v).1 start end) ≡ none
      → entries (kv.iter (kv.put s k v).1 start end) ≡ upsert k v (entries (kv.iter s start end))
  pub iter-delete :
      (s : kv.Store) (start end k : Bytes)
      → in_range start end k ≡ true
      → (kv.delete s k).0 ≡ none
      → ending (kv.iter s start end) ≡ none
      → ending (kv.iter (kv.delete s k).1 start end) ≡ none
      → entries (kv.iter (kv.delete s k).1 start end) ≡ remove k (entries (kv.iter s start end))
  pub iter-put_out :
      (s : kv.Store) (start end k v : Bytes)
      → in_range start end k ≡ false
      → kv.iter (kv.put s k v).1 start end ≡ kv.iter s start end
  pub iter-delete_out :
      (s : kv.Store) (start end k : Bytes)
      → in_range start end k ≡ false
      → kv.iter (kv.delete s k).1 start end ≡ kv.iter s start end
  pub iter-lock :
      (s : kv.Store) (start end k : Bytes) → kv.iter (kv.lock s k).1 start end ≡ kv.iter s start end

module _ {kv : Kv} (scan : ScanLaws kv) where
  -- List, forwards, with a limit and a callback that never stops.
  pub list-bounded :
      {S : Type 0} (t : Txn kv) (start end : Bytes) (limit : ℕ) (f : S → Bytes → Bytes → S) (s : S)
      → 1 ≤ limit
      → bytes_lt end start ≡ false
      → list t start end limit (λ x k v. (true, f x k v)) s
        ≡ bounded limit f s (kv.iter t.store start end)
  unfolding list
  list-bounded t start end limit f s p o = ground (
    arith,
    list_loop-bounded (kv.iter t.store start end) start end limit 0 limit f s
        (scan.within t.store start end) (omega arith) p,
  )
