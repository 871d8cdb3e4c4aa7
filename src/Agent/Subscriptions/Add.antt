-- ===== src/Agent/Subscriptions/Add.antt =====
-- What `addSubscription` does, against two plain passes over the list.
use embedded_provisioning_sd.Prelude.{
  ℕ, zero, suc, ◌+◌, ◌<◌, ◌≡◌, ◌≢◌, refl, inl, inr, Bool, true, false, some, List, [], ◌∷◌, arith,
  ltb, if◌then◌else◌, set, Bool-cases, ==_refl, ==_of_ne,
}
use embedded_provisioning_sd.Agent.Subscriptions.{
  max_subscriptions, SubscriptionElement, strncmp_eq, is_free, is_same, scan, add_checked,
  add_subscription,
}

pub strncmp_eq_refl : (a : List ℕ) (n : ℕ) → strncmp_eq a a n ≡ true
unfolding strncmp_eq
strncmp_eq_refl a zero = refl
strncmp_eq_refl [] (suc n) = refl
strncmp_eq_refl (x ∷ xs) (suc n) = ground (arith, strncmp_eq_refl xs n)

pub strncmp_eq_sym : (a b : List ℕ) (n : ℕ) → strncmp_eq a b n ≡ strncmp_eq b a n
unfolding strncmp_eq
strncmp_eq_sym a b zero = refl
strncmp_eq_sym [] [] (suc n) = refl
strncmp_eq_sym [] (y ∷ ys) (suc n) = refl
strncmp_eq_sym (x ∷ xs) [] (suc n) = refl
strncmp_eq_sym (x ∷ xs) (y ∷ ys) (suc n) = ground (arith, strncmp_eq_sym xs ys n)

module _ (filter : List ℕ) (len callback context : ℕ) where
  -- The subscription is in the list.
  abbrev pub any_same : List SubscriptionElement → Bool
  any_same [] = false
  any_same (e ∷ es) =
      if any_same es
      then true
      else if is_free e
      then false
      else is_same e filter len callback context

-- The first free index, counting from `i`.
abbrev pub first_free : List SubscriptionElement → ℕ → ℕ
first_free [] i = max_subscriptions
first_free (e ∷ es) i = let rest = first_free es (i + 1) in if is_free e then i else rest

abbrev pub element : List ℕ → ℕ → ℕ → ℕ → SubscriptionElement
element filter len callback context = record {
  callback = callback;
  callback_context = context;
  filter_string_length = len;
  filter_string = filter;
}

module _ (filter : List ℕ) (len callback context : ℕ) where
  scan_lem :
      (es : List SubscriptionElement) (i : ℕ)
      → scan es i filter len callback context ≡ (
          if any_same filter len callback context es
          then (true, max_subscriptions)
          else (false, first_free es i))
  unfolding scan
  scan_lem [] i = refl
  scan_lem (e ∷ es) i =
      let ih = scan_lem es (i + 1) in
      elim (Bool-cases (any_same filter len callback context es)) [
        | inl there ↦ rw (ih, there)
        | inr absent ↦ elim (Bool-cases (is_free e)) [
          | inl free ↦ rw (ih, absent, free)
          | inr used ↦ elim (Bool-cases (is_same e filter len callback context)) [
            | inl same ↦ rw (ih, absent, used, same)
            | inr other ↦ rw (ih, absent, used, other)
          ]
        ]
      ]

  -- `addSubscription` with valid parameters reports an existing subscription and leaves the list alone;
  -- else it writes the new element to the first free index below the maximum; else it reports failure
  -- and leaves the list alone.
  pub add_subscription_lem :
      (list : List SubscriptionElement)
      → len ≢ 0
      → callback ≢ 0
      → add_subscription list (some filter) len callback context ≡ (
          if any_same filter len callback context list
          then (true, list)
          else if ltb (first_free list 0) max_subscriptions
          then (true, set list (first_free list 0) (element filter len callback context))
          else (false, list))
  unfolding add_subscription add_checked
  add_subscription_lem list hl hc =
      let found : Bool = any_same filter len callback context list in
      let room : Bool = ltb (first_free list 0) max_subscriptions in
      rw (==_of_ne len 0 hl, ==_of_ne callback 0 hc, scan_lem list 0)
        (elim (Bool-cases found) [ inl there ↦ rw there | inr absent ↦ rw absent refl ])

  -- The element written is the subscription.
  is_same-element :
      len ≢ 0
      → (is_free (element filter len callback context) ≡ false)
        × (is_same (element filter len callback context) filter len callback context ≡ true)
  is_same-element hl = (
    ==_of_ne len 0 hl,
    rw (==_refl len, strncmp_eq_refl filter len, ==_refl callback, ==_refl context),
  )

  any_same-set :
      (es : List SubscriptionElement) (i k : ℕ)
      → len ≢ 0
      → first_free es i ≡ i + k
      → i + k < max_subscriptions
      → any_same filter len callback context (set es k (element filter len callback context)) ≡ true
  any_same-set [] i k hl e b = absurd (omega arith)
  any_same-set (x ∷ es) i zero hl e b =
      let s = is_same-element hl in
      elim (Bool-cases (any_same filter len callback context es)) [
        | inl there ↦ rw there
        | inr absent ↦ rw (absent, s.0, s.1)
      ]
  any_same-set (x ∷ es) i (suc k) hl e b = elim (Bool-cases (is_free x)) [
    | inl free ↦ absurd (ground arith)
    | inr used ↦ rw (any_same-set es (i + 1) k hl (ground arith) (omega arith))
  ]

  -- After a call that returns true the subscription is in the list.
  pub add_subscription_adds :
      (list : List SubscriptionElement)
      → len ≢ 0
      → callback ≢ 0
      → (add_subscription list (some filter) len callback context).0 ≡ true
      → any_same filter len callback context
          (add_subscription list (some filter) len callback context).1
        ≡ true
  add_subscription_adds list hl hc ok =
      let e = add_subscription_lem list hl hc in
      elim (Bool-cases (any_same filter len callback context list)) [
        | inl there ↦ rw (e, there) there
        | inr absent ↦ elim (Bool-cases (ltb (first_free list 0) max_subscriptions)) [
          | inl room ↦
              rw (e, absent, room)
                (any_same-set list 0 (first_free list 0) hl (omega arith) (ground arith))
          | inr none_left ↦ let impossible : false ≡ true = rw (e, absent, none_left) at ok in cc
        ]
      ]

  -- When `addSubscription` returns true for a filter of a length that is not 0 and a callback that is
  -- not NULL, a second call with the same arguments returns true and changes nothing.
  pub add_subscription_twice :
      (list : List SubscriptionElement)
      → len ≢ 0
      → callback ≢ 0
      → (add_subscription list (some filter) len callback context).0 ≡ true
      → add_subscription
          (add_subscription list (some filter) len callback context).1
          (some filter)
          len
          callback
          context
        ≡ (true, (add_subscription list (some filter) len callback context).1)
  add_subscription_twice list hl hc ok =
      let list' : List SubscriptionElement =
        (add_subscription list (some filter) len callback context).1 in
      rw (add_subscription_lem list' hl hc, add_subscription_adds list hl hc ok)
