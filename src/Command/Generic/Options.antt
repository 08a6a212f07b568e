-- ===== src/Command/Generic/Options.antt =====
-- command/zset.go: the options NX, XX, GT and LT, as EXPIRE takes them.
use lancelot.Base.{
  Bool, true, false, ◌||◌, Option, none, some, List, [], ◌∷◌, if◌then◌else◌, Bytes, codes, bytes_eq,
  to_lower,
}
use lancelot.Store.Error.{Result, ok, err, gt_lt_compat, gt_lt_nx_compat, unsupported_option}

-- checkOption, its bits of CheckType one by one
pub record CheckOption : Type 0 where
  pub nx : Bool
  pub xx : Bool
  pub gt : Bool
  pub lt : Bool
  pub changed : Bool
  pub incr : Bool

abbrev pub no_option : CheckOption
no_option = record { nx = false; xx = false; gt = false; lt = false; changed = false; incr = false }

-- The words of the switch in getCheckOption.
pub data Word : Type 0 where
  word_nx word_xx word_gt word_lt word_ch word_incr : Word

unfoldable pub word_of : Bytes → Option Word
word_of s =
    if bytes_eq s (codes "nx")
    then some word_nx
    else if bytes_eq s (codes "xx")
    then some word_xx
    else if bytes_eq s (codes "gt")
    then some word_gt
    else if bytes_eq s (codes "lt")
    then some word_lt
    else if bytes_eq s (codes "ch")
    then some word_ch
    else if bytes_eq s (codes "incr")
    then some word_incr
    else none

unfoldable pub add_word : {F : Type 0} → CheckOption → Word → Result F CheckOption
add_word o word_nx =
    if o.lt || o.gt || o.xx then err gt_lt_nx_compat else ok (record o { nx = true })
add_word o word_xx = if o.nx then err gt_lt_nx_compat else ok (record o { xx = true })
add_word o word_gt =
    if o.nx
    then err gt_lt_nx_compat
    else if o.lt
    then err gt_lt_compat
    else ok (record o { gt = true })
add_word o word_lt =
    if o.nx
    then err gt_lt_nx_compat
    else if o.gt
    then err gt_lt_compat
    else ok (record o { lt = true })
add_word o word_ch = ok (record o { changed = true })
add_word o word_incr = ok (record o { incr = true })

-- The loop of getCheckOption, with the arguments that it leaves.
unfoldable pub get_check_option :
    {F : Type 0} → CheckOption → List Bytes → Result F (CheckOption × List Bytes)
get_check_option o [] = ok (o, [])
get_check_option o (a ∷ rest) = elim (word_of (to_lower a)) [
  | none ↦ ok (o, a ∷ rest)
  | some w ↦ elim (add_word o w) [ err e ↦ err e | ok o' ↦ get_check_option o' rest ]
]

-- The options of expire.
unfoldable pub expire_options : {F : Type 0} → List Bytes → Result F CheckOption
expire_options args = elim (get_check_option no_option args) [
  | err e ↦ err e
  | ok (o, []) ↦ ok o
  | ok (o, a ∷ rest) ↦ err (unsupported_option a)
]
