-- ===== src/Agent/Subscriptions.antt =====
-- libraries/mqtt_agent/source/subscription_manager.c: which callback wants which topic filter.
pub mod Add
pub mod Remove
pub mod Dispatch
use embedded_provisioning_sd.Prelude.{
  ℕ, zero, suc, ◌+◌, Bool, true, false, ◌&&◌, Option, none, some, List, [], ◌∷◌, ltb, ◌==◌,
  if◌then◌else◌, set,
}

-- SUBSCRIPTION_MANAGER_MAX_SUBSCRIPTIONS, the length of `xGlobalSubscriptionList`.
abbrev pub max_subscriptions : ℕ
max_subscriptions = 10

-- `SubscriptionElement_t`: the callback and its context as addresses, 0 for NULL; the bytes that the
-- filter pointer leads to, without the terminator.
pub record SubscriptionElement : Type 0 where
  pub callback : ℕ
  pub callback_context : ℕ
  pub filter_string_length : ℕ
  pub filter_string : List ℕ

-- `strncmp( a, b, n ) == 0`, on bytes that a terminator follows.
unfoldable pub strncmp_eq : List ℕ → List ℕ → ℕ → Bool
strncmp_eq a b zero = true
strncmp_eq [] [] (suc n) = true
strncmp_eq [] (y ∷ ys) (suc n) = y == 0
strncmp_eq (x ∷ xs) [] (suc n) = x == 0
strncmp_eq (x ∷ xs) (y ∷ ys) (suc n) =
    let rest = strncmp_eq xs ys n in if x == y then (if x == 0 then true else rest) else false

-- An element that `memset` cleared.
abbrev pub free_element : SubscriptionElement
free_element = record {
  callback = 0;
  callback_context = 0;
  filter_string_length = 0;
  filter_string = [];
}

abbrev pub is_free : SubscriptionElement → Bool
is_free e = e.filter_string_length == 0

-- The element has this topic filter.
abbrev pub has_filter : SubscriptionElement → List ℕ → ℕ → Bool
has_filter e filter len = e.filter_string_length == len && strncmp_eq filter e.filter_string len

-- The element is this very subscription.
abbrev pub is_same : SubscriptionElement → List ℕ → ℕ → ℕ → ℕ → Bool
is_same e filter len callback context =
    has_filter e filter len && (e.callback == callback && e.callback_context == context)

-- The loop of `addSubscription`, from the last index down to `i`: whether it stopped at a duplicate,
-- and `xAvailableIndex`.
unfoldable pub scan : List SubscriptionElement → ℕ → List ℕ → ℕ → ℕ → ℕ → Bool × ℕ
scan [] i filter len callback context = (false, max_subscriptions)
scan (e ∷ es) i filter len callback context =
    let (found, available) = scan es (i + 1) filter len callback context in
    if found
    then (true, available)
    else if is_free e
    then (false, i)
    else if is_same e filter len callback context
    then (true, max_subscriptions)
    else (false, available)

-- `addSubscription` behind its parameter checks.
unfoldable pub add_checked :
    List SubscriptionElement → List ℕ → ℕ → ℕ → ℕ → Bool × List SubscriptionElement
add_checked list filter len callback context =
    let (found, available) = scan list 0 filter len callback context in
    if ltb available max_subscriptions
    then (
      true,
      set list available (record {
        callback = callback;
        callback_context = context;
        filter_string_length = len;
        filter_string = filter;
      }),
    )
    else (found, list)

-- `addSubscription`: `none` for a NULL filter, 0 for a NULL callback. The list is the global array,
-- which is not NULL.
unfoldable pub add_subscription :
    List SubscriptionElement → Option (List ℕ) → ℕ → ℕ → ℕ → Bool × List SubscriptionElement
add_subscription list none len callback context = (false, list)
add_subscription list (some filter) len callback context =
    if len == 0
    then (false, list)
    else if callback == 0
    then (false, list)
    else add_checked list filter len callback context

-- The loop of `removeSubscription`.
unfoldable pub remove_matching : List SubscriptionElement → List ℕ → ℕ → List SubscriptionElement
remove_matching [] filter len = []
remove_matching (e ∷ es) filter len =
    (if e.filter_string_length == len
      then (if strncmp_eq e.filter_string filter len then free_element else e)
      else e)
    ∷ remove_matching es filter len

-- `removeSubscription`
unfoldable pub remove_subscription :
    List SubscriptionElement → Option (List ℕ) → ℕ → List SubscriptionElement
remove_subscription list none len = list
remove_subscription list (some filter) len =
    if len == 0 then list else remove_matching list filter len

-- A callback that was invoked: its address and its context.
pub record Call : Type 0 where
  pub callback : ℕ
  pub callback_context : ℕ

abbrev pub call_of : SubscriptionElement → Call
call_of e = record { callback = e.callback; callback_context = e.callback_context }

-- `MQTT_MatchTopic` of coreMQTT on a name, its length, a filter and its length: what it writes to
-- `*pIsMatch`, `none` if it returns without a write.
abbrev pub MatchTopic : Type 0
MatchTopic = List ℕ → ℕ → List ℕ → ℕ → Option Bool

-- `isMatched` behind the call: it keeps its old value where nothing is written.
abbrev pub written : Option Bool → Bool → Bool
written none old = old
written (some b) old = b

-- The loop of `handleIncomingPublishes`: `publishHandled`, and the callbacks in order. The callbacks
-- are taken not to change the list.
unfoldable pub handle_from :
    MatchTopic → List SubscriptionElement → List ℕ → ℕ → Bool → Bool → Bool × List Call
handle_from match_topic [] topic len matched handled = (handled, [])
handle_from match_topic (e ∷ es) topic len matched handled =
    let matched' =
      if is_free e
      then matched
      else written (match_topic topic len e.filter_string e.filter_string_length) matched in
    let hit = if is_free e then false else matched' in
    let (done, calls) =
      handle_from match_topic es topic len matched' (if hit then true else handled) in
    (done, if hit then call_of e ∷ calls else calls)

-- `handleIncomingPublishes` on the global list and a publish that is not NULL.
unfoldable pub handle_incoming_publishes :
    MatchTopic → List SubscriptionElement → List ℕ → ℕ → Bool × List Call
handle_incoming_publishes match_topic list topic len =
    handle_from match_topic list topic len false false
