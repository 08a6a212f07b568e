-- ===== src/Command/Bits.antt =====
-- command/bit.go: BITCOUNT, BITPOS, GETBIT, BITOP and SETBIT, with checkAndGetRange of command/string.go.
pub mod Laws
pub mod Read
pub mod Get
use mathlib.Core.Option
use Prim.Native.Nat.{bit_and, bit_or, bit_xor}
use lancelot.Base.{
  ℕ, zero, suc, ◌+◌, ◌-◌, ◌*◌, ◌/◌, ◌%◌, Bool, true, false, ◌&&◌, ◌||◌, Option, none, some, List,
  [], ◌∷◌, ◌++◌, map, ltb, leb, ◌==◌, if◌then◌else◌, Bytes, codes, length, replicate, get_or,
  bytes_eq, to_lower,
}
use lancelot.Base.Bits.{bit_at, with_bit, put_byte}
use lancelot.Base.Int.{ℤ, pos, negsuc, ◌+ℤ◌, wrap_int64, pos_part}
use lancelot.Base.Decimal.{parse_int}
use lancelot.Utils.Int.{nonnegative_int}
use lancelot.Store.Kv.{Kv}
use lancelot.Store.Error.{Error, Result, ok, err, not_integer, syntax}
use lancelot.Store.Txn.{Txn, Exec, ◌>>=◌, ◌>>◌, pure, max_value_size}
use lancelot.Command.Object.{Object, Slice, bytes_of, object_key, string_type}
use lancelot.Command.Access.{Change, new_object, with_object, set_txn_object, no_change, plus_count}
use lancelot.Command.Hash.Read.{Outcome}
use lancelot.Command.Reply.{Reply, simple_int, Handler, set_error, set_wrong_args, respond}
use lancelot.Command.Strings.Read.{get_string, get_range}

-- The ones among the lowest bits; OnesCount8 of math/bits has eight.
unfoldable pub ones : ℕ → ℕ → ℕ
ones zero v = 0
ones (suc n) v = v % 2 + ones n (v / 2)

-- OneCount
unfoldable pub one_count : Bytes → ℕ
one_count [] = 0
one_count (b ∷ bs) = ones 8 b + one_count bs

-- `7 - offset&0x7`
abbrev pub bit_index : ℕ → ℕ
bit_index offset = 7 - offset % 8

-- The end of GetBitHandle, on the byte that getRange has cut.
unfoldable pub read_bit : Bytes → ℕ → ℕ
read_bit [] offset = 0
read_bit (b ∷ bs) offset = bit_at b (bit_index offset)

-- The zeros that SetBitHandle appends, or all that it makes, so that `o` is a position.
unfoldable pub grow : ℕ → Bytes → Bytes
grow o value = value ++ replicate (o + 1 - length value) 0

-- The bit before SETBIT, `origin`, and the value after it; `none` where the bit is as asked for.
unfoldable pub set_bit : Bytes → ℕ → ℕ → ℕ × Option Bytes
set_bit value offset b =
    let o = offset / 8 in
    let i = bit_index offset in
    if leb (length value) o
    then (0, some (put_byte o (with_bit 0 i b) (grow o value)))
    else (let v = get_or value o 0 in
        if bit_at v i == b
        then (bit_at v i, none)
        else (bit_at v i, some (put_byte o (with_bit v i b) value)))

-- The arguments of checkAndGetRange; `none` is its error.
abbrev pub range_bounds : List Bytes → Option (ℤ × ℤ)
range_bounds [] = some (pos 0, negsuc 0)
range_bounds (s ∷ []) = Option.map (λ n. (n, negsuc 0)) (parse_int s)
range_bounds (s ∷ e ∷ rest) = elim (parse_int s) [
  | none ↦ none
  | some n ↦ Option.map (λ m. (n, m)) (parse_int e)
]

-- The inner loop of BitPosHandle: `left` positions of the byte are left, from `i` on.
unfoldable pub find_in_byte : ℕ → ℕ → ℕ → ℕ → Option ℕ
find_in_byte bit v i zero = none
find_in_byte bit v i (suc left) =
    let later = find_in_byte bit v (i + 1) left in if bit_at v (7 - i) == bit then some i else later

-- skipValue
abbrev pub skip_value : ℕ → ℕ
skip_value bit = if bit == 0 then 255 else 0

-- The loop of BitPosHandle: the first position of the bit, counted from the first byte.
unfoldable pub find_bit : ℕ → ℕ → Bytes → Option ℕ
find_bit bit ik [] = none
find_bit bit ik (b ∷ bs) =
    let later = find_bit bit (ik + 1) bs in
    if b == skip_value bit
    then later
    else elim (find_in_byte bit b 0 8) [ none ↦ later | some i ↦ some (ik * 8 + i) ]

-- `n * 8`, which wraps
abbrev pub times_eight : ℤ → ℤ
times_eight n = let two = n +ℤ n in let four = two +ℤ two in wrap_int64 (four +ℤ four)

-- The reply of BitPosHandle for the bytes of a range; `unended` is `len(args) < 4`.
unfoldable pub bit_position : Bool → ℕ → Slice → ℤ → ℤ → ℤ
bit_position unended bit none start end = if bit == 1 then negsuc 0 else pos 0
bit_position unended bit (some v) start end = elim (find_bit bit 0 v) [
  | some k ↦ wrap_int64 (times_eight start +ℤ pos k)
  | none ↦ if bit == 0 && unended then times_eight (end +ℤ pos 1) else negsuc 0
]

-- The keys of mapBitOp.
pub data BitOp : Type 0 where
  op_and op_or op_xor op_not : BitOp

abbrev pub bit_op_of : Bytes → Option BitOp
bit_op_of name =
    if bytes_eq name (codes "and")
    then some op_and
    else if bytes_eq name (codes "or")
    then some op_or
    else if bytes_eq name (codes "xor")
    then some op_xor
    else if bytes_eq name (codes "not")
    then some op_not
    else none

-- AND, OR, XOR and NOT
unfoldable pub apply_op : BitOp → ℕ → ℕ → ℕ
apply_op op_and a b = bit_and a b
apply_op op_or a b = bit_or a b
apply_op op_xor a b = bit_xor a b
apply_op op_not a b = 255 - a

-- sliceBinOp; zeros fill the shorter string.
unfoldable pub slice_bin_op : (ℕ → ℕ → ℕ) → Bytes → Bytes → Bytes
slice_bin_op f [] [] = []
slice_bin_op f [] (b ∷ bs) = f 0 b ∷ slice_bin_op f [] bs
slice_bin_op f (a ∷ rest) [] = f a 0 ∷ slice_bin_op f rest []
slice_bin_op f (a ∷ rest) (b ∷ bs) = f a b ∷ slice_bin_op f rest bs

module _ {kv : Kv} where
  -- The end of Command.getRange; the outer `none` is a panic, and a key without an object has no
  -- bytes.
  unfoldable pub cut_string :
      ℤ → ℤ → Result kv.Fault Slice × Txn kv → Option (Result kv.Fault (Slice × ℤ × ℤ) × Txn kv)
  cut_string start end (err e, t) = some (err e, t)
  cut_string start end (ok none, t) = some (ok (none, start, end), t)
  cut_string start end (ok (some v), t) =
      let (part, from, to) = get_range v start end in
      Option.map (λ b. (ok (some b, from, to), t)) part

  -- Command.getRange
  unfoldable pub string_range :
      Bytes → ℤ → ℤ → Txn kv → Option (Result kv.Fault (Slice × ℤ × ℤ) × Txn kv)
  string_range key start end t = cut_string start end (get_string key t)

  -- A reply made of the bytes and the bounds of a range, or of the error.
  unfoldable pub answer_range :
      (Slice → ℤ → ℤ → Reply kv.Fault)
      → Option (Result kv.Fault (Slice × ℤ × ℤ) × Txn kv)
      → Outcome kv
  answer_range f none = none
  answer_range f (some (err e, t)) = some (set_error e t)
  answer_range f (some (ok (v, start, end), t)) = some (f v start end, t)

  -- checkAndGetRange, and what a command makes of it.
  unfoldable pub ranged :
      Bytes → List Bytes → (Slice → ℤ → ℤ → Reply kv.Fault) → Txn kv → Outcome kv
  ranged key args f t = elim (range_bounds args) [
    | none ↦ some (set_error not_integer t)
    | some (start, end) ↦ answer_range f (string_range key start end t)
  ]

  -- BitCountHandle; its first test never holds, so that it panics without a key.
  unfoldable pub bitcount_handle : List Bytes → Txn kv → Outcome kv
  bitcount_handle [] t = none
  bitcount_handle (key ∷ start ∷ []) t = some (set_error syntax t)
  bitcount_handle (key ∷ args) t =
      ranged key args (λ v start end. simple_int (pos (one_count (bytes_of v)))) t

  -- BitPosHandle
  unfoldable pub bitpos_handle : List Bytes → Txn kv → Outcome kv
  bitpos_handle (key ∷ arg ∷ args) t =
      if leb 3 (length args)
      then some (set_wrong_args (codes "bitpos") t)
      else elim (nonnegative_int arg) [
        | none ↦ some (set_error not_integer t)
        | some n ↦
            if leb 2 (pos_part n)
            then some (set_error not_integer t)
            else ranged key args
                (λ v start end.
                  simple_int (bit_position (ltb (length args) 2) (pos_part n) v start end))
                t
      ]
  bitpos_handle _ t = some (set_wrong_args (codes "bitpos") t)

  -- GetBitHandle
  unfoldable pub getbit_handle : List Bytes → Txn kv → Outcome kv
  getbit_handle (key ∷ arg ∷ []) t = elim (nonnegative_int arg) [
    | none ↦ some (set_error not_integer t)
    | some n ↦
        answer_range (λ v start end. simple_int (pos (read_bit (bytes_of v) (pos_part n))))
          (string_range key (pos (pos_part n / 8)) (pos (pos_part n / 8)) t)
  ]
  getbit_handle _ t = some (set_wrong_args (codes "getbit") t)

  -- The end of SetBitHandle: the changed value is stored, and the reply is the old bit.
  unfoldable pub store_bit : Bytes → Change → Object → ℕ × Option Bytes → Exec kv (Reply kv.Fault)
  store_bit key create o (origin, none) = pure (simple_int (pos origin))
  store_bit key create o (origin, some value) =
      set_txn_object key (record o { value = some value }) create >> pure (simple_int (pos origin))

  -- SetBitHandle, once its arguments are read.
  unfoldable pub change_bit : Bytes → ℕ → ℕ → Exec kv (Reply kv.Fault)
  change_bit key offset b t =
      let o = new_object t string_type key in
      with_object (object_key o) o true
        (λ o'. store_bit (object_key o) plus_count o' (set_bit [] offset b))
        (λ o'. store_bit (object_key o) no_change o' (set_bit (bytes_of o'.value) offset b)) t

  -- SetBitHandle
  unfoldable pub setbit_handle : List Bytes → Handler kv
  setbit_handle (key ∷ arg ∷ bit ∷ []) t = elim (nonnegative_int arg) [
    | none ↦ set_error not_integer t
    | some n ↦
        if leb max_value_size (pos_part n)
        then set_error not_integer t
        else elim (nonnegative_int bit) [
          | none ↦ set_error not_integer t
          | some b ↦
              if leb 2 (pos_part b)
              then set_error not_integer t
              else respond (change_bit key (pos_part n) (pos_part b)) t
        ]
  ]
  setbit_handle _ t = set_wrong_args (codes "setbit") t

  -- The loop of BitOpHandle; `first` is `i == 2`. A key without an object changes nothing.
  unfoldable pub gather : (ℕ → ℕ → ℕ) → Bool → List Bytes → Bytes → Exec kv Bytes
  gather f first [] ret t = (ok ret, t)
  gather f first (key ∷ keys) ret t =
      let o = new_object t string_type key in
      with_object (object_key o) o false (λ _. gather f false keys ret)
        (λ o'.
          gather f false keys
            (if first then bytes_of o'.value else slice_bin_op f ret (bytes_of o'.value)))
        t

  -- The end of BitOpHandle
  unfoldable pub store_op : Bytes → Change → Object → Bytes → Exec kv (Reply kv.Fault)
  store_op key create dest value =
      set_txn_object key (record dest { value = some value }) create
      >> pure (simple_int (pos (length value)))

  -- BitOpHandle for "not", once the destination is read
  unfoldable pub complement : Bytes → Bytes → Change → Object → Exec kv (Reply kv.Fault)
  complement key dest_key create dest t =
      let o = new_object t string_type key in
      with_object (object_key o) o false (λ _. pure (simple_int (pos 0)))
        (λ o'. store_op dest_key create dest (map (λ b. apply_op op_not b 0) (bytes_of o'.value))) t

  -- The end of BitOpHandle for the other operations
  unfoldable pub store_combined : Bytes → Change → Object → Bytes → Exec kv (Reply kv.Fault)
  store_combined dest_key create dest ret =
      if length ret == 0 then pure (simple_int (pos 0)) else store_op dest_key create dest ret

  unfoldable pub combine : BitOp → List Bytes → Bytes → Change → Object → Exec kv (Reply kv.Fault)
  combine op keys dest_key create dest =
      gather (apply_op op) true keys [] >>= store_combined dest_key create dest

  unfoldable pub operate :
      BitOp → Bytes → List Bytes → Bytes → Change → Object → Exec kv (Reply kv.Fault)
  operate op_not key keys = complement key
  operate op key keys = combine op (key ∷ keys)

  -- BitOpHandle
  unfoldable pub bitop_handle : List Bytes → Handler kv
  bitop_handle (name ∷ dest ∷ key ∷ keys) t = elim (bit_op_of (to_lower name)) [
    | none ↦ set_error syntax t
    | some op ↦
        (let o = new_object t string_type dest in
          respond
            (with_object (object_key o) o true (operate op key keys (object_key o) plus_count)
              (operate op key keys (object_key o) no_change))
            t)
  ]
  bitop_handle _ t = set_wrong_args (codes "bitop") t
