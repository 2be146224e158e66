-- ===== src/Notifications/Engine/Active.antt =====
-- The notifications that the engine (engine.rs) keeps per origin.
use bridgeos.Prelude.{
  ltb, if◌then◌else◌, Bool-cases, length, drop, length-append, length-drop, bytes_eq, bytes_eq_refl,
  bytes_eq_iff, Str, ◌≤◌, ◌≡◌, refl, inl, inr, Bool, true, false, ◌||◌, List, [], ◌∷◌, ◌++◌, arith,
}
use bridgeos.Notifications.Types.{is_active, NotificationEntry}
use bridgeos.Notifications.Engine.{retain_other, push_bounded, filter_active}

unfoldable pub has_id : Str → List NotificationEntry → Bool
has_id id [] = false
has_id id (x ∷ xs) = bytes_eq x.notification_id id || has_id id xs

-- No two entries have one notification id.
abbrev pub DistinctIds : List NotificationEntry → Type 0
DistinctIds [] = Unit {0}
DistinctIds (x ∷ xs) = (has_id x.notification_id xs ≡ false) × DistinctIds xs

module _ (P : NotificationEntry → Type 0) where
  abbrev pub Every : List NotificationEntry → Type 0
  Every [] = Unit {0}
  Every (x ∷ xs) = P x × Every xs

  Every-append :
      (xs : List NotificationEntry) (y : NotificationEntry) → Every xs → P y → Every (xs ++ y ∷ [])
  Every-append [] y a p = (p, tt)
  Every-append (x ∷ xs) y a p = (a.0, Every-append xs y a.1 p)

  Every-retain_other :
      (id : Str) (xs : List NotificationEntry) → Every xs → Every (retain_other id xs)
  unfolding retain_other
  Every-retain_other id [] a = tt
  Every-retain_other id (x ∷ xs) a = elim (Bool-cases (bytes_eq x.notification_id id)) [
    | inl e ↦ rw e (Every-retain_other id xs a.1)
    | inr e ↦ rw e (a.0, Every-retain_other id xs a.1)
  ]

  Every-drop : (xs : List NotificationEntry) → Every xs → Every (drop 1 xs)
  Every-drop [] a = tt
  Every-drop (x ∷ xs) a = a.1

has_id-retain_other :
    (a b : Str) (xs : List NotificationEntry)
    → has_id b (retain_other a xs) ≡ (if bytes_eq a b then false else has_id b xs)
unfolding has_id retain_other
has_id-retain_other a b [] = ground arith
has_id-retain_other a b (x ∷ xs) = ground (
  arith,
  bytes_eq_iff a b,
  bytes_eq_iff x.notification_id a,
  bytes_eq_iff x.notification_id b,
  has_id-retain_other a b xs,
)

DistinctIds-retain_other :
    (id : Str) (xs : List NotificationEntry) → DistinctIds xs → DistinctIds (retain_other id xs)
unfolding retain_other
DistinctIds-retain_other id [] d = tt
DistinctIds-retain_other id (x ∷ xs) d = elim (Bool-cases (bytes_eq x.notification_id id)) [
  | inl e ↦ rw e (DistinctIds-retain_other id xs d.1)
  | inr e ↦ rw e (
    ground (arith, has_id-retain_other id x.notification_id xs, d.0),
    DistinctIds-retain_other id xs d.1,
  )
]

has_id-append :
    (id : Str) (xs : List NotificationEntry) (y : NotificationEntry)
    → has_id id (xs ++ y ∷ []) ≡ (has_id id xs || bytes_eq y.notification_id id)
unfolding has_id
has_id-append id [] y = ground arith
has_id-append id (x ∷ xs) y = ground (arith, has_id-append id xs y)

DistinctIds-append :
    (xs : List NotificationEntry) (y : NotificationEntry)
    → DistinctIds xs
    → has_id y.notification_id xs ≡ false
    → DistinctIds (xs ++ y ∷ [])
unfolding has_id
DistinctIds-append [] y d h = (refl, tt)
DistinctIds-append (x ∷ xs) y d h = (
  ground (
    arith,
    h,
    d.0,
    has_id-append x.notification_id xs y,
    bytes_eq_iff x.notification_id y.notification_id,
    bytes_eq_iff y.notification_id x.notification_id,
  ),
  DistinctIds-append xs y d.1 (ground arith),
)

DistinctIds-drop : (xs : List NotificationEntry) → DistinctIds xs → DistinctIds (drop 1 xs)
DistinctIds-drop [] d = tt
DistinctIds-drop (x ∷ xs) d = d.1

length-retain_other :
    (id : Str) (xs : List NotificationEntry) → length (retain_other id xs) ≤ length xs
unfolding retain_other
length-retain_other id [] = omega arith
length-retain_other id (x ∷ xs) = ground (arith, length-retain_other id xs)

has_id-filter_active :
    (id : Str) (xs : List NotificationEntry)
    → has_id id xs ≡ false
    → has_id id (filter_active xs) ≡ false
unfolding has_id filter_active
has_id-filter_active id [] h = refl
has_id-filter_active id (x ∷ xs) h = ground (arith, h, has_id-filter_active id xs)

pub filter_active-each :
    (P : NotificationEntry → Type 0) (xs : List NotificationEntry)
    → DistinctIds xs
    → Every P xs
    → (length (filter_active xs) ≤ length xs)
      × DistinctIds (filter_active xs)
      × Every (λ x. P x × (is_active x.state ≡ true)) (filter_active xs)
unfolding filter_active
filter_active-each P [] d a = (omega arith, tt, tt)
filter_active-each P (x ∷ xs) d a =
    let (shorter, once, each) = filter_active-each P xs d.1 a.1 in
    elim (Bool-cases (is_active x.state)) [
      | inl e ↦ rw e (
        omega (arith, shorter),
        (has_id-filter_active x.notification_id xs d.0, once),
        ((a.0, e), each),
      )
      | inr e ↦ rw e (omega (arith, shorter), once, each)
    ]

module _ (P : NotificationEntry → Type 0) where
  pub record IsBucket (xs : List NotificationEntry) : Type 0 where
    pub bounded : length xs ≤ 256
    pub distinct : DistinctIds xs
    pub each : Every P xs

  pub push_bounded-IsBucket :
      (entry : NotificationEntry) (xs : List NotificationEntry)
      → IsBucket xs
      → P entry
      → IsBucket (push_bounded entry xs)
  unfolding push_bounded
  push_bounded-IsBucket entry xs v p = elim (Bool-cases (ltb 256 (length pushed))) [
    | inl full ↦ rw full (record {
      bounded = omega (arith, size, length-drop 1 pushed);
      distinct = DistinctIds-drop pushed once;
      each = Every-drop P pushed all;
    })
    | inr fits ↦ rw fits (record { bounded = ground arith; distinct = once; each = all })
  ]
    where
      id : Str
      id = entry.notification_id

      kept : List NotificationEntry
      kept = retain_other entry.notification_id xs

      pushed : List NotificationEntry
      pushed = retain_other entry.notification_id xs ++ entry ∷ []

      size : length (retain_other entry.notification_id xs ++ entry ∷ []) ≤ 257
      size = omega (
        arith,
        length-append (retain_other entry.notification_id xs) (entry ∷ []),
        length-retain_other entry.notification_id xs,
        v.bounded,
      )

      once : DistinctIds (retain_other entry.notification_id xs ++ entry ∷ [])
      once =
          DistinctIds-append (retain_other entry.notification_id xs) entry
            (DistinctIds-retain_other entry.notification_id xs v.distinct)
            (ground (
              arith,
              has_id-retain_other entry.notification_id entry.notification_id xs,
              bytes_eq_refl entry.notification_id,
            ))

      all : Every P (retain_other entry.notification_id xs ++ entry ∷ [])
      all =
          Every-append P (retain_other entry.notification_id xs) entry
            (Every-retain_other P entry.notification_id xs v.each) p
