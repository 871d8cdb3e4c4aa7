-- ===== src/Agent/Subscriptions/Remove.antt =====
-- What `removeSubscription` does to each element.
use embedded_provisioning_sd.Prelude.{
  ℕ, ◌≡◌, ◌≢◌, refl, inl, inr, false, some, List, [], ◌∷◌, map, arith, if◌then◌else◌, Bool-cases,
  ==_of_ne,
}
use embedded_provisioning_sd.Agent.Subscriptions.{
  SubscriptionElement, is_free, free_element, has_filter, is_same, remove_matching,
  remove_subscription,
}
use embedded_provisioning_sd.Agent.Subscriptions.Add.{strncmp_eq_sym, any_same}

module _ (filter : List ℕ) (len : ℕ) where
  -- One element after the removal.
  abbrev pub cleared : SubscriptionElement → SubscriptionElement
  cleared e = if has_filter e filter len then free_element else e

  -- The removal clears every element with the filter, and keeps every other where it stands.
  pub remove_subscription_lem :
      (list : List SubscriptionElement)
      → len ≢ 0
      → remove_subscription list (some filter) len ≡ map cleared list
  unfolding remove_subscription remove_matching
  remove_subscription_lem list h = rw (==_of_ne len 0 h) (remove_matching_lem list)
    where
      remove_matching_lem :
          (es : List SubscriptionElement) → remove_matching es filter len ≡ map cleared es
      remove_matching_lem [] = refl
      remove_matching_lem (e ∷ es) =
          ground (arith, remove_matching_lem es, strncmp_eq_sym e.filter_string filter len)

  cleared-not-same :
      (callback context : ℕ) (e : SubscriptionElement)
      → len ≢ 0
      → (if is_free (cleared e) then false else is_same (cleared e) filter len callback context)
        ≡ false
  cleared-not-same callback context e h = elim (Bool-cases (has_filter e filter len)) [
    | inl there ↦ rw there refl
    | inr absent ↦ rw absent (ground arith)
  ]

  -- Behind `removeSubscription` of a filter whose length is not 0, no subscription to the filter is
  -- left, for any callback and context.
  pub remove_subscription_removes :
      (list : List SubscriptionElement) (callback context : ℕ)
      → len ≢ 0
      → any_same filter len callback context (remove_subscription list (some filter) len) ≡ false
  remove_subscription_removes list callback context h =
      rw (remove_subscription_lem list h) (absent list)
    where
      absent :
          (es : List SubscriptionElement)
          → any_same filter len callback context (map cleared es) ≡ false
      absent [] = refl
      absent (e ∷ es) = rw (absent es) (cleared-not-same callback context e h)
