-- ===== src/Mqtt/Outgoing/Laws.antt =====
-- The invariant of the table of unacknowledged publishes, and what each operation does to it.
use embedded_provisioning_sd.Prelude.{
  ℕ, zero, suc, ◌+◌, ◌-◌, ◌≤◌, ◌<◌, ◌≡◌, ◌≢◌, refl, sym, ap, inl, inr, true, none, some, List, [],
  ◌∷◌, map, arith, length, ◌==◌, if◌then◌else◌, set, Bool-cases, All,
}
use embedded_provisioning_sd.Mqtt.Library.{PublishPacket, Library}
use embedded_provisioning_sd.Mqtt.Outgoing.{
  free_packet, is_free, get_next_free_index, cleanup_at, cleanup_with_packet_id, as_duplicate,
  handle_publish_resend,
}

-- How many entries have the id.
abbrev pub count_id : ℕ → List PublishPacket → ℕ
count_id a [] = 0
count_id a (p ∷ ps) = (if p.packet_id == a then 1 else 0) + count_id a ps

-- A free entry is all zero, and no packet id stands in two entries.
abbrev pub IsClean : PublishPacket → Type 0
IsClean p = is_free p ≡ true → p ≡ free_packet

pub record IsTable (ps : List PublishPacket) : Type 0 where
  pub clean : All IsClean ps
  pub distinct : (a : ℕ) → a ≢ 0 → count_id a ps ≤ 1

-- The entry at an index that `getNextFreeIndexForOutgoingPublishes` gives.
abbrev pub entry : List PublishPacket → ℕ → PublishPacket
entry [] i = free_packet
entry (p ∷ ps) zero = p
entry (p ∷ ps) (suc i) = entry ps i

-- An index counted from `base` on, as the search gives it.
pub next_free_entry :
    (ps : List PublishPacket) (base i : ℕ)
    → get_next_free_index ps base ≡ some i
    → (k : ℕ) × (i ≡ base + k) × (k < length ps) × (is_free (entry ps k) ≡ true)
unfolding get_next_free_index
next_free_entry [] base i e = cc
next_free_entry (p ∷ ps) base i e = elim (Bool-cases (is_free p)) [
  | inl free ↦ (0, ground arith, omega arith, free)
  | inr used ↦
      let (k, at, b, f) = next_free_entry ps (base + 1) i (ground arith) in
      (suc k, omega arith, omega arith, f)
]

-- The search fails exactly on a table in which every entry is in use.
pub next_free_none :
    (ps : List PublishPacket) (base : ℕ) → get_next_free_index ps base ≡ none → count_id 0 ps ≡ 0
unfolding get_next_free_index
next_free_none [] base e = refl
next_free_none (p ∷ ps) base e = ground (arith, next_free_none ps (base + 1))

pub count_id-set :
    (a : ℕ) (ps : List PublishPacket) (k : ℕ) (q : PublishPacket)
    → k < length ps
    → count_id a (set ps k q) + (if (entry ps k).packet_id == a then 1 else 0)
      ≡ count_id a ps + (if q.packet_id == a then 1 else 0)
count_id-set a [] k q h = absurd (omega arith)
count_id-set a (p ∷ ps) zero q h = omega arith
count_id-set a (p ∷ ps) (suc k) q h = omega (arith, count_id-set a ps k q (omega arith))

pub set-IsClean :
    (ps : List PublishPacket) (k : ℕ) (q : PublishPacket)
    → All IsClean ps
    → IsClean q
    → All IsClean (set ps k q)
set-IsClean [] k q h c = tt
set-IsClean (p ∷ ps) zero q h c = (c, h.1)
set-IsClean (p ∷ ps) (suc k) q h c = (h.0, set-IsClean ps k q h.1 c)

-- To clear the entry that was taken from a clean table gives the table back.
pub cleanup_at-set :
    (ps : List PublishPacket) (k : ℕ) (q : PublishPacket)
    → All IsClean ps
    → is_free (entry ps k) ≡ true
    → cleanup_at (set ps k q) k ≡ ps
unfolding cleanup_at
cleanup_at-set [] k q h f = refl
cleanup_at-set (p ∷ ps) zero q h f = ap (λ t. t ∷ ps) (sym (h.0 f))
cleanup_at-set (p ∷ ps) (suc k) q h f = ap (λ t. p ∷ t) (cleanup_at-set ps k q h.1 f)

cleanup_with_packet_id-IsClean :
    (ps : List PublishPacket) (id : ℕ) → All IsClean ps → All IsClean (cleanup_with_packet_id ps id)
unfolding cleanup_with_packet_id
cleanup_with_packet_id-IsClean [] id h = tt
cleanup_with_packet_id-IsClean (p ∷ ps) id h = elim (Bool-cases (p.packet_id == id)) [
  | inl hit ↦ rw hit (λ _. refl, h.1)
  | inr miss ↦ rw miss (h.0, cleanup_with_packet_id-IsClean ps id h.1)
]

count_id-cleanup_with_packet_id :
    (a : ℕ) (ps : List PublishPacket) (id : ℕ)
    → a ≢ 0
    → count_id a (cleanup_with_packet_id ps id)
      ≡ (if a == id then count_id a ps - 1 else count_id a ps)
unfolding cleanup_with_packet_id
count_id-cleanup_with_packet_id a [] id h = ground arith
count_id-cleanup_with_packet_id a (p ∷ ps) id h =
    ground (arith, count_id-cleanup_with_packet_id a ps id)

-- `cleanupOutgoingPublishWithPacketID` with an id that is not 0 on a valid table leaves a valid table
-- without the id, and with every other id as often as it was.
pub cleanup_with_packet_id_lem :
    (ps : List PublishPacket) (id : ℕ)
    → IsTable ps
    → id ≢ 0
    → IsTable (cleanup_with_packet_id ps id)
      × (count_id id (cleanup_with_packet_id ps id) ≡ 0)
      × ((a : ℕ) → a ≢ 0 → a ≢ id → count_id a (cleanup_with_packet_id ps id) ≡ count_id a ps)
cleanup_with_packet_id_lem ps id t h = (
  record {
    clean = cleanup_with_packet_id-IsClean ps id t.clean;
    distinct = λ a n. ground (arith, count_id-cleanup_with_packet_id a ps id n, t.distinct a n);
  },
  ground (arith, count_id-cleanup_with_packet_id id ps id h, t.distinct id h),
  λ a n ne. ground (arith, count_id-cleanup_with_packet_id a ps id n),
)

module _ {W B : Type 0} (lib : Library W B) where
  -- What a resend does to an entry in use.
  abbrev pub resent : PublishPacket → PublishPacket
  resent p = if is_free p then p else as_duplicate p

  handle_publish_resend-count_id :
      (a : ℕ) (ps : List PublishPacket) (w : W)
      → count_id a (handle_publish_resend lib ps w).1 ≡ count_id a ps
  unfolding handle_publish_resend
  handle_publish_resend-count_id a [] w = refl
  handle_publish_resend-count_id a (p ∷ ps) w =
      let w' : W = (lib.publish (as_duplicate p).pub_info p.packet_id w).1 in
      ground (arith, handle_publish_resend-count_id a ps w, handle_publish_resend-count_id a ps w')

  handle_publish_resend_marks :
      (ps : List PublishPacket) (w : W)
      → (handle_publish_resend lib ps w).0 ≡ true
      → (handle_publish_resend lib ps w).1 ≡ map resent ps
  unfolding handle_publish_resend
  handle_publish_resend_marks [] w h = refl
  handle_publish_resend_marks (p ∷ ps) w h =
      let w' : W = (lib.publish (as_duplicate p).pub_info p.packet_id w).1 in
      ground (arith, handle_publish_resend_marks ps w, handle_publish_resend_marks ps w')

  -- A resend that returns true marked every entry in use as a duplicate and left the free ones; and
  -- whatever it returns, no packet id enters or leaves the table.
  pub handle_publish_resend_lem :
      (ps : List PublishPacket) (w : W)
      → ((handle_publish_resend lib ps w).0 ≡ true
          → (handle_publish_resend lib ps w).1 ≡ map resent ps)
        × ((a : ℕ) → count_id a (handle_publish_resend lib ps w).1 ≡ count_id a ps)
  handle_publish_resend_lem ps w =
      (handle_publish_resend_marks ps w, λ a. handle_publish_resend-count_id a ps w)
