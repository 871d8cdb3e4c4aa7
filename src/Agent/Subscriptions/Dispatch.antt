-- ===== src/Agent/Subscriptions/Dispatch.antt =====
-- Which callbacks `handleIncomingPublishes` invokes, after which additions and removals.
use embedded_provisioning_sd.Prelude.{
  ℕ, ◌≡◌, ◌≢◌, refl, inl, inr, Bool, true, false, ◌&&◌, some, List, [], ◌∷◌, map, arith, ◌==◌,
  if◌then◌else◌, Bool-cases,
}
use embedded_provisioning_sd.Agent.Subscriptions.{
  SubscriptionElement, strncmp_eq, is_free, has_filter, remove_subscription, add_subscription, Call,
  call_of, MatchTopic, handle_from, handle_incoming_publishes,
}
use embedded_provisioning_sd.Agent.Subscriptions.Add.{any_same, add_subscription_adds}
use embedded_provisioning_sd.Agent.Subscriptions.Remove.{cleared, remove_subscription_lem}

-- The callbacks of the elements in use that pass `test`, in the order of the list.
abbrev pub calls_where : (SubscriptionElement → Bool) → List SubscriptionElement → List Call
calls_where test [] = []
calls_where test (e ∷ es) =
    let rest = calls_where test es in
    if (if is_free e then false else test e) then call_of e ∷ rest else rest

abbrev pub is_nonempty : List Call → Bool
is_nonempty [] = false
is_nonempty (c ∷ cs) = true

-- The call is in the list.
abbrev pub has_call : List Call → ℕ → ℕ → Bool
has_call [] callback context = false
has_call (c ∷ cs) callback context =
    if c.callback == callback && c.callback_context == context
    then true
    else has_call cs callback context

-- `matches topic len filter filter_len` is the answer of MQTT_MatchTopic, which it always writes: so
-- it does for a topic name and a filter that are not empty.
module _ (matches : List ℕ → ℕ → List ℕ → ℕ → Bool) (topic : List ℕ) (len : ℕ) where
  abbrev pub matcher : MatchTopic
  matcher t n f m = some (matches t n f m)

  abbrev pub wants : SubscriptionElement → Bool
  wants e = matches topic len e.filter_string e.filter_string_length

  handle_from_lem :
      (es : List SubscriptionElement) (matched handled : Bool)
      → handle_from matcher es topic len matched handled
        ≡ (if handled then true else is_nonempty (calls_where wants es), calls_where wants es)
  unfolding handle_from
  handle_from_lem [] matched true = refl
  handle_from_lem [] matched false = refl
  handle_from_lem (e ∷ es) matched handled = elim (Bool-cases (is_free e)) [
    | inl free ↦ rw (free, handle_from_lem es matched handled)
    | inr used ↦ elim (Bool-cases (wants e)) [
      | inl hit ↦ rw (used, hit, handle_from_lem es true true) (hit_end handled)
      | inr miss ↦ rw (used, miss, handle_from_lem es false handled)
    ]
  ]
    where
      hit_end :
          (b : Bool)
          → ◌≡◌ {A = Bool × List Call}
              (true, call_of e ∷ calls_where wants es)
              ((if b then true else true), call_of e ∷ calls_where wants es)
      hit_end true = refl
      hit_end false = refl

  -- Where `MQTT_MatchTopic` always writes its answer, `handleIncomingPublishes` invokes exactly the
  -- callbacks of the elements in use whose filter matches, once each and in the order of the list, and
  -- its result says whether there was one.
  pub handle_incoming_publishes_lem :
      (list : List SubscriptionElement)
      → handle_incoming_publishes matcher list topic len
        ≡ (is_nonempty (calls_where wants list), calls_where wants list)
  unfolding handle_incoming_publishes
  handle_incoming_publishes_lem list = handle_from_lem list false false

  -- Behind `removeSubscription` of a filter whose length is not 0, a publish invokes, in the order of
  -- the list, exactly the callbacks of the elements in use that do not have the filter and whose own
  -- filter matches.
  pub handle-remove :
      (list : List SubscriptionElement) (filter : List ℕ) (flen : ℕ)
      → flen ≢ 0
      → (handle_incoming_publishes matcher
          (remove_subscription list (some filter) flen)
          topic
          len).1
        ≡ calls_where (λ e. if has_filter e filter flen then false else wants e) list
  handle-remove list filter flen h =
      rw
        (
          handle_incoming_publishes_lem (remove_subscription list (some filter) flen),
          remove_subscription_lem filter flen list h,
        )
        (kept list)
    where
      kept :
          (es : List SubscriptionElement)
          → calls_where wants (map (cleared filter flen) es)
            ≡ calls_where (λ e. if has_filter e filter flen then false else wants e) es
      kept [] = refl
      kept (e ∷ es) = elim (Bool-cases (has_filter e filter flen)) [
        | inl there ↦ rw there (ground (arith, kept es))
        | inr absent ↦ rw absent (ground (arith, kept es))
      ]

  -- MQTT_MatchTopic reads no more of a filter than its length.
  abbrev pub ReadsPrefix : Type 0
  ReadsPrefix =
      (f g : List ℕ) (n : ℕ)
      → strncmp_eq f g n ≡ true
      → matches topic len f n ≡ matches topic len g n

  called :
      (filter : List ℕ) (flen callback context : ℕ) (es : List SubscriptionElement)
      → ReadsPrefix
      → matches topic len filter flen ≡ true
      → any_same filter flen callback context es ≡ true
      → has_call (calls_where wants es) callback context ≡ true
  called filter flen callback context [] r m h = cc
  called filter flen callback context (e ∷ es) r m h =
      elim (Bool-cases (any_same filter flen callback context es)) [
        | inl there ↦ ground (arith, called filter flen callback context es r m there)
        | inr absent ↦ ground (arith, r filter e.filter_string flen)
      ]

  -- A publish whose topic matches a filter invokes the callback that was added for it with its
  -- context, when `addSubscription` returned true, the length of the filter and the callback are not
  -- 0, and the match reads no more of a filter than its length.
  pub handle-add :
      (list : List SubscriptionElement) (filter : List ℕ) (flen callback context : ℕ)
      → ReadsPrefix
      → matches topic len filter flen ≡ true
      → flen ≢ 0
      → callback ≢ 0
      → (add_subscription list (some filter) flen callback context).0 ≡ true
      → has_call
          (handle_incoming_publishes matcher
            (add_subscription list (some filter) flen callback context).1
            topic
            len).1
          callback
          context
        ≡ true
  handle-add list filter flen callback context r m hl hc ok =
      let list' : List SubscriptionElement =
        (add_subscription list (some filter) flen callback context).1 in
      rw (handle_incoming_publishes_lem list') (
        called filter flen callback context list' r m
          (add_subscription_adds filter flen callback context list hl hc ok))
