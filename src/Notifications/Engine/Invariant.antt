-- ===== src/Notifications/Engine/Invariant.antt =====
-- What every message leaves true of the engine's state (engine.rs).
use mathlib.Core.Option
use bridgeos.Prelude.{
  Bool-cases, length, Bytes, bytes_eq, bytes_eq_iff, Str, lookup, insert, lookup-insert, suc, ◌≤◌,
  ◌≡◌, refl, sym, ap, ◌∙◌, subst, inl, inr, true, Option, none, some, List, [], ◌∷◌, arith,
  bytes_key,
}
use bridgeos.Notifications.Types.{
  is_active, NotificationEntry, enforce_size_limits, NotificationMessage, post, dismiss,
  action_invoked, clear_all,
}
use bridgeos.Notifications.Engine.{
  Engine, new_engine, emit, or_default, dismiss_entry, dismiss_all, apply_dismiss,
  is_dismiss_action, store, admit, handle_message, active_notifications,
}
use bridgeos.Notifications.Engine.Active.{
  has_id, DistinctIds, Every, filter_active-each, IsBucket, push_bounded-IsBucket,
}
use bridgeos.Notifications.Engine.Delivery.{blocked, known, gone, delivered, admission}
use bridgeos.Prelude.Maps.{adjust, lookup-adjust}
use bridgeos.Notifications.Guard.Bounded.{
  IsBounded, record_dismissed-IsBounded, record_clear_all-IsBounded, record_posted-IsBounded,
  new_guard-IsBounded,
}
use bridgeos.Core.{NodeId}
use bridgeos.Notifications.Policy.{NotificationPolicy}

has_id-dismiss_entry :
    (a b : Str) (xs : List NotificationEntry) → has_id b (dismiss_entry a xs) ≡ has_id b xs
unfolding has_id dismiss_entry
has_id-dismiss_entry a b [] = refl
has_id-dismiss_entry a b (x ∷ xs) = ground (arith, has_id-dismiss_entry a b xs)

has_id-dismiss_all :
    (b : Str) (xs : List NotificationEntry) → has_id b (dismiss_all xs) ≡ has_id b xs
unfolding has_id dismiss_all
has_id-dismiss_all b [] = refl
has_id-dismiss_all b (x ∷ xs) = ground (arith, has_id-dismiss_all b xs)

length-dismiss_entry :
    (a : Str) (xs : List NotificationEntry) → length (dismiss_entry a xs) ≡ length xs
unfolding dismiss_entry
length-dismiss_entry a [] = refl
length-dismiss_entry a (x ∷ xs) = ap suc (length-dismiss_entry a xs)

length-dismiss_all : (xs : List NotificationEntry) → length (dismiss_all xs) ≡ length xs
unfolding dismiss_all
length-dismiss_all [] = refl
length-dismiss_all (x ∷ xs) = ap suc (length-dismiss_all xs)

-- A bucket with the text of its origin.
abbrev pub BucketOf : (Bytes → Str) → Str → List NotificationEntry → Type 0
BucketOf hex o = IsBucket (λ x. hex x.origin ≡ o)

module _ (hex : Bytes → Str) (o : Str) where
  Each-dismiss_entry :
      (id : Str) (xs : List NotificationEntry)
      → DistinctIds xs × Every (λ x. hex x.origin ≡ o) xs
      → DistinctIds (dismiss_entry id xs) × Every (λ x. hex x.origin ≡ o) (dismiss_entry id xs)
  unfolding dismiss_entry
  Each-dismiss_entry id [] v = v
  Each-dismiss_entry id (x ∷ xs) (d, a) =
      let (d', a') = Each-dismiss_entry id xs (d.1, a.1) in
      let h = has_id-dismiss_entry id x.notification_id xs ∙ d.0 in
      elim (Bool-cases (bytes_eq x.notification_id id)) [
        | inl e ↦ rw e ((h, d'), (a.0, a'))
        | inr e ↦ rw e ((h, d'), (a.0, a'))
      ]

  Each-dismiss_all :
      (xs : List NotificationEntry)
      → DistinctIds xs × Every (λ x. hex x.origin ≡ o) xs
      → DistinctIds (dismiss_all xs) × Every (λ x. hex x.origin ≡ o) (dismiss_all xs)
  unfolding dismiss_all
  Each-dismiss_all [] v = v
  Each-dismiss_all (x ∷ xs) (d, a) =
      let (d', a') = Each-dismiss_all xs (d.1, a.1) in
      ((has_id-dismiss_all x.notification_id xs ∙ d.0, d'), (a.0, a'))

  dismiss_entry-BucketOf :
      (id : Str) (xs : List NotificationEntry)
      → BucketOf hex o xs
      → BucketOf hex o (dismiss_entry id xs)
  dismiss_entry-BucketOf id xs v =
      let (distinct, each) = Each-dismiss_entry id xs (v.distinct, v.each) in
      record {
        bounded = omega (arith, length-dismiss_entry id xs, v.bounded);
        distinct = distinct;
        each = each;
      }

  dismiss_all-BucketOf :
      (xs : List NotificationEntry) → BucketOf hex o xs → BucketOf hex o (dismiss_all xs)
  dismiss_all-BucketOf xs v =
      let (distinct, each) = Each-dismiss_all xs (v.distinct, v.each) in
      record {
        bounded = omega (arith, length-dismiss_all xs, v.bounded);
        distinct = distinct;
        each = each;
      }

-- The state between two messages.
pub record IsValid (hex : Bytes → Str) (e : Engine) : Type 0 where
  pub guarded : IsBounded e.guard
  pub buckets :
      (o : Str) (xs : List NotificationEntry) → lookup o e.active ≡ some xs → BucketOf hex o xs

module _ (hex : Bytes → Str) (active : List (Str × List NotificationEntry)) where
  abbrev Buckets : Type 0
  Buckets = (o : Str) (xs : List NotificationEntry) → lookup o active ≡ some xs → BucketOf hex o xs

some_injective : {A : Type 0} {a b : A} → some a ≡ some b → a ≡ b
some_injective e = cc

adjust-Buckets :
    (hex : Bytes → Str) (a : Str) (f : List NotificationEntry → List NotificationEntry)
    (m : List (Str × List NotificationEntry))
    → ((xs : List NotificationEntry) → BucketOf hex a xs → BucketOf hex a (f xs))
    → Buckets hex m
    → Buckets hex (adjust a f m)
adjust-Buckets hex a f m keeps v o xs h = elim (Bool-cases (bytes_eq a o)) [
  | inl e ↦
      there (lookup o m) refl (sym (lookup-adjust a o f m ∙ rw e refl) ∙ h) ((bytes_eq_iff a o).0 e)
  | inr e ↦ v o xs (sym (lookup-adjust a o f m ∙ rw e refl) ∙ h)
]
  where
    there :
        (r : Option (List NotificationEntry))
        → lookup o m ≡ r
        → Option.map f r ≡ some xs
        → a ≡ o
        → BucketOf hex o xs
    there none e h k = cc
    there (some ys) e h k = subst (BucketOf hex o) (some_injective h) (
        subst (λ t. BucketOf hex t (f ys)) k
          (keeps ys (subst (λ t. BucketOf hex t ys) (sym k) (v o ys e))))

or_default-BucketOf :
    (hex : Bytes → Str) (o : Str) (r : Option (List NotificationEntry))
    → ((xs : List NotificationEntry) → r ≡ some xs → BucketOf hex o xs)
    → BucketOf hex o (or_default r)
unfolding or_default
or_default-BucketOf hex o none h = record { bounded = omega arith; distinct = tt; each = tt }
or_default-BucketOf hex o (some xs) h = h xs refl

insert-Buckets :
    (hex : Bytes → Str) (a : Str) (b : List NotificationEntry)
    (m : List (Str × List NotificationEntry))
    → BucketOf hex a b
    → Buckets hex m
    → Buckets hex (insert a b m)
insert-Buckets hex a b m w v o xs h = elim (Bool-cases (bytes_eq a o)) [
  | inl e ↦
      subst (BucketOf hex o) (some_injective (sym (lookup-insert a o b m ∙ rw e refl) ∙ h))
        (subst (λ t. BucketOf hex t b) ((bytes_eq_iff a o).0 e) w)
  | inr e ↦ v o xs (sym (lookup-insert a o b m ∙ rw e refl) ∙ h)
]

apply_dismiss-IsValid :
    (hex : Bytes → Str) (o id : Str) (e : Engine)
    → IsValid hex e
    → IsValid hex (apply_dismiss o id e)
unfolding apply_dismiss
apply_dismiss-IsValid hex o id e v = record {
  guarded = record_dismissed-IsBounded e.guard o id v.guarded;
  buckets =
      adjust-Buckets hex o (dismiss_entry id) e.active (dismiss_entry-BucketOf hex o id) v.buckets;
}

module _ (hex : Bytes → Str) (blake3 : Bytes → Bytes) (to_lowercase : Str → Str) where
  store-IsValid :
      (entry : NotificationEntry) (e : Engine)
      → IsValid hex e
      → IsValid hex (store hex blake3 to_lowercase entry e)
  unfolding store
  store-IsValid entry e v = record {
    guarded = record_posted-IsBounded hex blake3 e.guard entry v.guarded;
    buckets =
        let o = hex entry.origin in
        insert-Buckets hex o _ e.active
          (push_bounded-IsBucket (λ x. hex x.origin ≡ o) entry (or_default (lookup o e.active))
            (or_default-BucketOf hex o (lookup o e.active) (v.buckets o)) refl)
          v.buckets;
  }

  handle_message-IsValid :
      (m : NotificationMessage) (e : Engine)
      → IsValid hex e
      → IsValid hex (handle_message hex blake3 to_lowercase m e)
  unfolding handle_message emit
  handle_message-IsValid (post entry) e v = admitted (enforce_size_limits blake3 entry)
    where
      admitted : (x : NotificationEntry) → IsValid hex (admit hex blake3 to_lowercase x e)
      admitted x = elim (admission hex blake3 to_lowercase x e) [
        | blocked b eq ↦ rw eq (record { guarded = v.guarded; buckets = v.buckets })
        | known d eq ↦ rw eq v
        | gone g eq ↦ rw eq v
        | delivered b d g eq ↦
            rw eq
              (let w = store-IsValid x e v in record { guarded = w.guarded; buckets = w.buckets })
      ]
  handle_message-IsValid (dismiss o id s) e v =
      let w = apply_dismiss-IsValid hex (hex o) id e v in
      record { guarded = w.guarded; buckets = w.buckets }
  handle_message-IsValid (action_invoked o id s action) e v =
      elim (Bool-cases (is_dismiss_action action)) [
        | inl d ↦ rw d (
            let w = apply_dismiss-IsValid hex (hex o) id e v in
            record { guarded = w.guarded; buckets = w.buckets })
        | inr d ↦ rw d (record { guarded = v.guarded; buckets = v.buckets })
      ]
  handle_message-IsValid (clear_all o s) e v = record {
    guarded = record_clear_all-IsBounded e.guard (hex o) v.guarded;
    buckets =
        adjust-Buckets hex (hex o) dismiss_all e.active (dismiss_all-BucketOf hex (hex o))
          v.buckets;
  }

  unfoldable pub handle_all : Engine → List NotificationMessage → Engine
  handle_all e [] = e
  handle_all e (m ∷ ms) = handle_all (handle_message hex blake3 to_lowercase m e) ms

  handle_all-IsValid :
      (e : Engine) (ms : List NotificationMessage) → IsValid hex e → IsValid hex (handle_all e ms)
  unfolding handle_all
  handle_all-IsValid e [] v = v
  handle_all-IsValid e (m ∷ ms) v =
      handle_all-IsValid (handle_message hex blake3 to_lowercase m e) ms
        (handle_message-IsValid m e v)

  new_engine-IsValid : (n : NodeId) (q : NotificationPolicy) → IsValid hex (new_engine n q)
  unfolding new_engine lookup
  new_engine-IsValid n q = record { guarded = new_guard-IsBounded; buckets = λ o xs h. cc }

-- After any messages on a new engine, the notifications it shows for an origin are at most 256, all of
-- that origin and active, and no two of them have one notification id.
pub active_notifications-handle_all :
    (hex : Bytes → Str) (blake3 : Bytes → Bytes) (to_lowercase : Str → Str) (n : NodeId)
    (q : NotificationPolicy) (ms : List NotificationMessage) (origin : NodeId)
    → let xs =
        active_notifications hex blake3 to_lowercase
          (handle_all hex blake3 to_lowercase (new_engine n q) ms)
          origin in
      (length xs ≤ 256)
      × DistinctIds xs
      × Every (λ x. (hex x.origin ≡ hex origin) × (is_active x.state ≡ true)) xs
unfolding active_notifications
active_notifications-handle_all hex blake3 to_lowercase n q ms origin =
    let e = handle_all hex blake3 to_lowercase (new_engine n q) ms in
    let v =
      handle_all-IsValid hex blake3 to_lowercase (new_engine n q) ms
        (new_engine-IsValid hex blake3 to_lowercase n q) in
    let bucket = or_default (lookup (hex origin) e.active) in
    let b =
      or_default-BucketOf hex (hex origin) (lookup (hex origin) e.active)
        (v.buckets (hex origin)) in
    let (shorter, once, each) =
      filter_active-each (λ x. hex x.origin ≡ hex origin) bucket b.distinct b.each in
    (omega (arith, shorter, b.bounded), once, each)
