-- ===== src/Notifications/Policy/Privacy.antt =====
-- Which notifications the policy (policy.rs) lets pass.
use bridgeos.Prelude.{
  Bool-cases, Str, ◌≤◌, ◌≡◌, refl, ap, ◌↔◌, inl, inr, true, false, ◌&&◌, ◌||◌, List, [], ◌∷◌, ◌++◌,
  arith,
}
use bridgeos.Notifications.Policy.{
  sensitive_title_keywords, sensitive_app_ids, NotificationPolicy, starts_with, contains, any,
  is_sensitive_app, has_sensitive_keywords, should_block,
}
use bridgeos.Notifications.Types.{rank, NotificationEntry}

-- A pattern stands somewhere in a text.
abbrev pub Occurs : Str → Str → Type 0
Occurs pattern s = (before after : Str) × (s ≡ before ++ (pattern ++ after))

starts_with→eq :
    (s pattern : Str) → starts_with s pattern ≡ true → (after : Str) × (s ≡ pattern ++ after)
unfolding starts_with
starts_with→eq s [] h = (s, refl)
starts_with→eq [] (k ∷ pattern) h = cc
starts_with→eq (c ∷ s) (k ∷ pattern) h =
    let (after, e) = starts_with→eq s pattern (ground arith) in (after, ground (arith, e))

starts_with-append : (pattern after : Str) → starts_with (pattern ++ after) pattern ≡ true
unfolding starts_with
starts_with-append [] after = refl
starts_with-append (k ∷ pattern) after = ground (arith, starts_with-append pattern after)

contains→Occurs : (s pattern : Str) → contains s pattern ≡ true → Occurs pattern s
unfolding contains
contains→Occurs [] pattern h = let (after, e) = starts_with→eq [] pattern h in ([], after, e)
contains→Occurs (c ∷ s) pattern h = elim (Bool-cases (starts_with (c ∷ s) pattern)) [
  | inl here ↦ let (after, e) = starts_with→eq (c ∷ s) pattern here in ([], after, e)
  | inr there ↦
      let (before, after, e) = contains→Occurs s pattern (ground arith) in
      (c ∷ before, after, ap (λ t. c ∷ t) e)
]

Occurs→contains :
    (before pattern after : Str) → contains (before ++ (pattern ++ after)) pattern ≡ true
unfolding contains starts_with
Occurs→contains [] [] [] = refl
Occurs→contains [] [] (c ∷ after) = refl
Occurs→contains [] (k ∷ pattern) after = ground (arith, starts_with-append (k ∷ pattern) after)
Occurs→contains (c ∷ before) pattern after = ground (arith, Occurs→contains before pattern after)

contains_iff : (s pattern : Str) → (contains s pattern ≡ true) ↔ Occurs pattern s
contains_iff s pattern = (contains→Occurs s pattern, λ o. rw o.2 (Occurs→contains o.0 pattern o.1))

-- No text of a list stands in a text.
abbrev pub NoneIn : List Str → Str → Type 0
NoneIn [] s = Unit {0}
NoneIn (x ∷ xs) s = (Occurs x s → ⊥) × NoneIn xs s

contains-false : (s pattern : Str) → (contains s pattern ≡ false) ↔ (Occurs pattern s → ⊥)
contains-false s pattern = (
  λ h o. cc (h, (contains_iff s pattern).1 o),
  λ n. elim (Bool-cases (contains s pattern)) [
    | inl found ↦ absurd (n ((contains_iff s pattern).0 found))
    | inr missing ↦ missing
  ],
)

any-contains_iff : (s : Str) (xs : List Str) → (any (contains s) xs ≡ false) ↔ NoneIn xs s
unfolding any
any-contains_iff s [] = (λ h. tt, λ n. refl)
any-contains_iff s (x ∷ xs) = ground (arith, contains-false s x, any-contains_iff s xs)

-- A search for each pattern in two texts is two searches.
any-or :
    (s t : Str) (xs : List Str)
    → any (λ x. contains s x || contains t x) xs ≡ (any (contains s) xs || any (contains t) xs)
unfolding any
any-or s t [] = refl
any-or s t (x ∷ xs) = ground (arith, any-or s t xs)

-- What the policy lets pass, as conditions on the notification.
abbrev pub Passes : (Str → Str) → NotificationPolicy → NotificationEntry → Type 0
Passes to_lowercase q e =
    (rank q.min_urgency ≤ rank e.urgency)
    × ((q.block_ongoing && e.is_ongoing) ≡ false)
    × (q.block_sensitive ≡ true
        → NoneIn sensitive_app_ids (to_lowercase e.app_id)
          × NoneIn sensitive_title_keywords (to_lowercase e.title)
          × NoneIn sensitive_title_keywords (to_lowercase e.text))

has_sensitive_keywords_iff :
    (to_lowercase : Str → Str) (e : NotificationEntry)
    → (has_sensitive_keywords to_lowercase e ≡ false) ↔ (
        NoneIn sensitive_title_keywords (to_lowercase e.title)
        × NoneIn sensitive_title_keywords (to_lowercase e.text))
unfolding has_sensitive_keywords
has_sensitive_keywords_iff to_lowercase e =
    both (to_lowercase e.title) (to_lowercase e.text) sensitive_title_keywords
  where
    both :
        (s t : Str) (xs : List Str)
        → (any (λ x. contains s x || contains t x) xs ≡ false) ↔ (NoneIn xs s × NoneIn xs t)
    both s t xs = ground (arith, any-or s t xs, any-contains_iff s xs, any-contains_iff t xs)

is_sensitive_app_iff :
    (to_lowercase : Str → Str) (app_id : Str)
    → (is_sensitive_app to_lowercase app_id ≡ false)
      ↔ NoneIn sensitive_app_ids (to_lowercase app_id)
unfolding is_sensitive_app
is_sensitive_app_iff to_lowercase app_id = any-contains_iff (to_lowercase app_id) sensitive_app_ids

-- The four gates, as one test.
gates :
    (to_lowercase : Str → Str) (q : NotificationPolicy) (e : NotificationEntry)
    → (should_block to_lowercase q e ≡ false) ↔ (
        (rank q.min_urgency ≤ rank e.urgency)
        × ((q.block_ongoing && e.is_ongoing) ≡ false)
        × (q.block_sensitive ≡ true
            → (is_sensitive_app to_lowercase e.app_id ≡ false)
              × (has_sensitive_keywords to_lowercase e ≡ false)))
unfolding should_block
gates to_lowercase q e = ground arith

-- A notification passes the policy exactly when its urgency is not below the threshold, it is not an
-- ongoing one where these are blocked, and, where sensitive ones are blocked, no listed application
-- id stands in its lower-case application id and no listed keyword in its lower-case title or text.
pub should_block_iff :
    (to_lowercase : Str → Str) (q : NotificationPolicy) (e : NotificationEntry)
    → (should_block to_lowercase q e ≡ false) ↔ Passes to_lowercase q e
should_block_iff to_lowercase q e = (
  λ h.
      let (urgent, ongoing, private) = (gates to_lowercase q e).0 h in
      (
        urgent,
        ongoing,
        λ b.
            let (title, text) = (has_sensitive_keywords_iff to_lowercase e).0 (private b).1 in
            ((is_sensitive_app_iff to_lowercase e.app_id).0 (private b).0, title, text),
      ),
  λ (urgent, ongoing, private). (gates to_lowercase q e).1 (
    urgent,
    ongoing,
    λ b. (
      (is_sensitive_app_iff to_lowercase e.app_id).1 (private b).0,
      (has_sensitive_keywords_iff to_lowercase e).1 ((private b).1, (private b).2),
    ),
  ),
)
