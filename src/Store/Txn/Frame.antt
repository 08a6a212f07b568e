-- ===== src/Store/Txn/Frame.antt =====
-- Which keys an action on a transaction may change, one rule for each way to build an action.
use lancelot.Base.{◌≡◌, refl, sym, ap, ◌∙◌, subst, Bool, true, false, Bytes, if◌then◌else◌}
use lancelot.Store.Kv.{Kv, KvLaws}
use lancelot.Store.Error.{Error, Result, ok, err}
use lancelot.Store.Txn.{Txn, Exec, continue, put, del, ◌>>=◌, pure, raise}
use lancelot.Store.Txn.Laws.{SameSession, put-SameSession, del-SameSession, put_ne, del_ne}

-- `m` changes what is stored and nothing else of the transaction, and that at keys of `Q` only,
-- whether it returns or fails.
pub record Touches {ℓ} {kv : Kv} {A : Type ℓ} (Q : Bytes → Type 0) (m : Exec kv A) : Type 0 where
  pub session : (t : Txn kv) → SameSession t (m t).1
  pub others : (t : Txn kv) (j : Bytes) → ¬ Q j → kv.get (m t).1.store j ≡ kv.get t.store j

module _ {ℓ} {kv : Kv} {A : Type ℓ} {Q : Bytes → Type 0} where
  pub Touches-pure : (a : A) → Touches {kv = kv} Q (pure a)
  Touches-pure a = record { session = λ t. refl; others = λ t j h. refl }

  pub Touches-raise : (e : Error kv.Fault) → Touches {kv = kv} {A = A} Q (raise e)
  Touches-raise e = record { session = λ t. refl; others = λ t j h. refl }

  pub Touches-unchanged : (m : Exec kv A) → ((t : Txn kv) → (m t).1 ≡ t) → Touches Q m
  Touches-unchanged m h = record {
    session = λ t. h t ∙ ap (λ (u : Txn kv). record t { store = u.store }) (sym (h t));
    others = λ t j n. ap (λ (u : Txn kv). kv.get u.store j) (h t);
  }

  -- The action may depend on the transaction that it starts from.
  pub Touches-state :
      (m : Txn kv → Exec kv A) → ((t : Txn kv) → Touches Q (m t)) → Touches Q (λ t. m t t)
  Touches-state m h = record { session = λ t. (h t).session t; others = λ t. (h t).others t }

  pub Touches-if :
      (b : Bool) (m n : Exec kv A)
      → Touches Q m
      → Touches Q n
      → Touches Q (λ t. if b then m t else n t)
  Touches-if true m n hm hn = hm
  Touches-if false m n hm hn = hn

-- Two actions that do the same change the same keys.
pub Touches-eq {ℓ} :
    {kv : Kv} {A : Type ℓ} {Q : Bytes → Type 0} (m n : Exec kv A)
    → ((t : Txn kv) → n t ≡ m t)
    → Touches Q n
    → Touches Q m
Touches-eq {kv = kv} m n e h = record {
  session = λ t. subst (λ x. SameSession t x.1) (e t) (h.session t);
  others = λ t j k. subst (λ x. kv.get x.1.store j ≡ kv.get t.store j) (e t) (h.others t j k);
}

pub Touches-weaken {ℓ} :
    {kv : Kv} {A : Type ℓ} {Q R : Bytes → Type 0} {m : Exec kv A}
    → Touches Q m
    → ((j : Bytes) → Q j → R j)
    → Touches R m
Touches-weaken h w = record { session = h.session; others = λ t j n. h.others t j (λ q. n (w j q)) }

-- Where the test is known, only the first branch counts.
pub Touches-if_true {ℓ} :
    {kv : Kv} {A : Type ℓ} {Q : Bytes → Type 0} (b : Bool) (m n : Exec kv A)
    → b ≡ true
    → Touches Q m
    → Touches Q (λ t. if b then m t else n t)
Touches-if_true true m n h k = k
Touches-if_true false m n h k = cc

pub SameSession-trans :
    {kv : Kv} (t u v : Txn kv) → SameSession t u → SameSession u v → SameSession t v
SameSession-trans {kv} t u v h k = k ∙ ap (λ (w : Txn kv). record w { store = v.store }) h

module _ {ℓ κ} {kv : Kv} {A : Type ℓ} {B : Type κ} {Q : Bytes → Type 0} where
  Touches-continue :
      (r : Result kv.Fault A) (f : A → Exec kv B)
      → ((a : A) → r ≡ ok a → Touches Q (f a))
      → Touches Q (continue {kv = kv} r f)
  Touches-continue (ok a) f h = h a refl
  Touches-continue (err e) f h = Touches-raise e

  -- The rest may use what the first action has returned.
  pub Touches-bind_ok :
      (m : Exec kv A) (f : A → Exec kv B)
      → Touches Q m
      → ((t : Txn kv) (a : A) → (m t).0 ≡ ok a → Touches Q (f a))
      → Touches Q (m >>= f)
  Touches-bind_ok m f hm hf =
      let rest = λ (t : Txn kv). Touches-continue (m t).0 f (hf t) in
      record {
        session = λ t. SameSession-trans t (m t).1 _ (hm.session t) ((rest t).session (m t).1);
        others = λ t j h. (rest t).others (m t).1 j h ∙ hm.others t j h;
      }

  pub Touches-bind :
      (m : Exec kv A) (f : A → Exec kv B)
      → Touches Q m
      → ((a : A) → Touches Q (f a))
      → Touches Q (m >>= f)
  Touches-bind m f hm hf = Touches-bind_ok m f hm (λ t a e. hf a)

module _ {kv : Kv} (laws : KvLaws kv) {Q : Bytes → Type 0} where
  pub Touches-put : (key val : Bytes) → Q key → Touches {kv = kv} Q (put key val)
  Touches-put key val q = record {
    session = put-SameSession key val;
    others = λ t j h. put_ne laws key val j t (λ e. h (subst Q (sym e) q));
  }

  pub Touches-del : (key : Bytes) → Q key → Touches {kv = kv} Q (del key)
  Touches-del key q = record {
    session = del-SameSession key;
    others = λ t j h. del_ne laws key j t (λ e. h (subst Q (sym e) q));
  }

-- An action that goes on after one that has returned.
pub bind_ok {ℓ κ} :
    {kv : Kv} {A : Type ℓ} {B : Type κ} (m : Exec kv A) (f : A → Exec kv B) (t : Txn kv) (a : A)
    → (m t).0 ≡ ok a
    → (m >>= f) t ≡ f a (m t).1
bind_ok {kv = kv} m f t a h = ap (λ r. continue {kv = kv} r f (m t).1) h
