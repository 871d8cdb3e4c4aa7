-- ===== src/Agent/Incoming/Items.antt =====
-- An item of the queue of incoming publishes: its buffer has the size that it says, and a copy of a
-- publish in it is that publish.
use embedded_provisioning_sd.Prelude.{
  ℕ, ◌+◌, ◌^◌, ◌<◌, ◌≤◌, ◌≡◌, refl, sym, ap, subst, ◌∙◌, inl, inr, Bool, none, some, List, [], ◌∷◌,
  arith, Bool-cases, Option-cases, ltb, length, take, take_all, copy_in, copy_out, length-copy_in,
  copy_out-copy_in_self, copy_out-copy_in_before,
}
use embedded_provisioning_sd.Mqtt.Library.{PublishInfo}
use embedded_provisioning_sd.Agent.Incoming.{
  QueueItem, required_size, ensure_buffer, write_publish, fill_item, clear_item, no_publish,
}

-- An item whose buffer, if it has one, has the size that it says.
abbrev pub IsItem : QueueItem → Type 0
IsItem item =
    (buffer : List ℕ)
    → item.topic_payload_buffer ≡ some buffer
    → length buffer ≡ item.topic_payload_buffer_size

-- A publish whose lengths are those of its topic and payload, and small enough for a `size_t`.
abbrev pub IsPublish : PublishInfo → Type 0
IsPublish info =
    (length info.topic_name ≡ info.topic_name_length)
    × (length info.payload ≡ info.payload_length)
    × (info.topic_name_length + info.payload_length + 2 < 2 ^ 64)

write_publish_lem :
    (buffer : List ℕ) (info : PublishInfo)
    → IsPublish info
    → info.topic_name_length + info.payload_length + 2 ≤ length buffer
    → (copy_out (write_publish buffer info) 0 info.topic_name_length ≡ info.topic_name)
      × (copy_out (write_publish buffer info) (info.topic_name_length + 1) info.payload_length
          ≡ info.payload)
      × (length (write_publish buffer info) ≡ length buffer)
unfolding write_publish
write_publish_lem buffer info (lt, lp, small) room =
    let n = info.topic_name_length in
    let m = info.payload_length in
    let topic = take n info.topic_name in
    let payload = take m info.payload in
    let et = take_all n info.topic_name (omega arith) in
    let ep = take_all m info.payload (omega arith) in
    let b₁ = copy_in buffer 0 topic in
    let b₂ = copy_in b₁ n (0 ∷ []) in
    let b₃ = copy_in b₂ (n + 1) payload in
    let l₁ = length-copy_in buffer 0 topic in
    let l₂ = length-copy_in b₁ n (0 ∷ []) in
    let l₃ = length-copy_in b₂ (n + 1) payload in
    let l₄ = length-copy_in b₃ (n + 1 + m) (0 ∷ []) in
    (
      copy_out-copy_in_before b₃ (n + 1 + m) 0 n (0 ∷ []) (omega arith)
          ∙ copy_out-copy_in_before b₂ (n + 1) 0 n payload (omega arith)
          ∙ copy_out-copy_in_before b₁ n 0 n (0 ∷ []) (omega arith)
          ∙ copy_out-copy_in_self buffer 0 n topic (ap length et ∙ lt) (omega arith)
          ∙ et,
      copy_out-copy_in_before b₃ (n + 1 + m) (n + 1) m (0 ∷ []) (omega arith)
          ∙ copy_out-copy_in_self b₂ (n + 1) m payload (ap length ep ∙ lp) (omega (arith, l₁, l₂))
          ∙ ep,
      l₄ ∙ l₃ ∙ l₂ ∙ l₁,
    )

module _ (malloc : ℕ → List ℕ) (gives : (n : ℕ) → length (malloc n) ≡ n) where
  -- A buffer with its size that has room for so many bytes.
  abbrev HasRoom : ℕ → List ℕ × ℕ → Type 0
  HasRoom size (buffer, size') = (length buffer ≡ size') × (size ≤ length buffer)

  ensure_buffer-HasRoom :
      (size : ℕ) (item : QueueItem) → IsItem item → HasRoom size (ensure_buffer malloc size item)
  unfolding ensure_buffer
  ensure_buffer-HasRoom size item good =
      let fresh : HasRoom size (malloc size, size) = (gives size, omega (arith, gives size)) in
      elim (Option-cases item.topic_payload_buffer) [
        | inl null ↦
            let e : ensure_buffer malloc size item ≡ (malloc size, size) =
              simp (ensure_buffer, null) in
            subst (HasRoom size) (sym e) fresh
        | inr (buffer, there) ↦ elim (Bool-cases (ltb item.topic_payload_buffer_size size)) [
          | inl small ↦
              let e : ensure_buffer malloc size item ≡ (malloc size, size) =
                simp (ensure_buffer, there, small) in
              subst (HasRoom size) (sym e) fresh
          | inr large ↦
              let e : ensure_buffer malloc size item ≡ (buffer, item.topic_payload_buffer_size) =
                simp (ensure_buffer, there, large) in
              let l = good buffer there in subst (HasRoom size) (sym e) (l, ground arith)
        ]
      ]

  -- An item that takes a copy of a publish has that publish, and a buffer of the size that it says.
  pub fill_item_lem :
      (item : QueueItem) (info : PublishInfo)
      → IsItem item
      → IsPublish info
      → ((fill_item malloc item info).publish_info ≡ info) × IsItem (fill_item malloc item info)
  unfolding fill_item required_size
  fill_item_lem item info good ok =
      let (buffer, size) = ensure_buffer malloc (required_size info) item in
      let (l, room) = ensure_buffer-HasRoom (required_size info) item good in
      let (et, ep, lw) = write_publish_lem buffer info ok (omega (arith, ok.2, room)) in
      let same : (b : List ℕ)
          → some (write_publish buffer info) ≡ some b
          → write_publish buffer info ≡ b =
        λ b e. cc e in
      (rw (et, ep) refl, λ b e. ap length (sym (same b e)) ∙ lw ∙ l)

-- An item without a publish and with a true size.
abbrev pub IsCleared : QueueItem → Type 0
IsCleared item = (item.publish_info ≡ no_publish) × IsItem item

pub clear_item-IsCleared :
    (free_buffer : Bool) (item : QueueItem) → IsItem item → IsCleared (clear_item free_buffer item)
unfolding clear_item
clear_item-IsCleared free_buffer item good =
    let kept : QueueItem = record item { publish_info = no_publish } in
    let emptied : QueueItem = record kept {
      topic_payload_buffer = none;
      topic_payload_buffer_size = 0;
    } in
    elim (Option-cases item.topic_payload_buffer) [
      | inl null ↦
          let e : clear_item free_buffer item ≡ kept = simp (clear_item, null) in
          subst IsCleared (sym e) (refl, good)
      | inr (buffer, there) ↦ elim (Bool-cases free_buffer) [
        | inl frees ↦
            let e : clear_item free_buffer item ≡ emptied = simp (clear_item, there, frees) in
            subst IsCleared (sym e) (refl, λ b e'. absurd (ground arith))
        | inr keeps ↦
            let e : clear_item free_buffer item ≡ kept = simp (clear_item, there, keeps) in
            subst IsCleared (sym e) (refl, good)
      ]
    ]
