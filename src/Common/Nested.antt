-- ===== src/Common/Nested.antt =====
-- Maps of maps, as the room managers keep them: a channel's room is there only while it is not
-- empty.
use Prim.Native.String.{String}
use mathlib.Core.Path.{◌≡◌, refl}
use mathlib.Core.Logic.{ite, inl, inr}
use mathlib.Core.Bool.{true, false}
use mathlib.Core.Option.{Option, none, some}
use mathlib.Core.List.{[], ◌∷◌}
use native.Mathlib.Omega.{arith}
use baker_self_hosted_voice.Common.Text.{str_dec, if◌then◌else◌, Bool-cases}
use baker_self_hosted_voice.Common.StringMap.{StringMap, get, set, delete, is_empty}
use baker_self_hosted_voice.Common.StringMap.Laws.{get-set, get-delete, set-set, is_empty-set}
use baker_self_hosted_voice.Common.StringMap.Entries.{
  Distinct, Entries, set-Distinct, delete-Distinct, set-Entries, delete-Entries, get-Entries,
}

module _ {ℓ} {V : Type ℓ} where
  -- The room, if there is one, or `new Map()`.
  abbrev pub room_or_new : Option (StringMap V) → StringMap V
  room_or_new none = []
  room_or_new (some room) = room

  -- `if (!room) this.rooms.set(channelId, new Map())`
  abbrev pub ensure_room : String → StringMap (StringMap V) → StringMap (StringMap V)
  ensure_room channel rooms = elim (get channel rooms) [
    | none ↦ set channel [] rooms
    | some _ ↦ rooms
  ]

  -- A room that changed in place, and its removal from the map if it has become empty.
  abbrev pub put_back : String → StringMap V → StringMap (StringMap V) → StringMap (StringMap V)
  put_back channel room rooms =
      if is_empty room then delete channel rooms else set channel room rooms

  -- The entry of an inner map.
  abbrev pub get_in : String → Option (StringMap V) → Option V
  get_in k none = none
  get_in k (some room) = get k room

  pub empty_room : (k : String) (room : StringMap V) → is_empty room ≡ true → get k room ≡ none
  unfolding get
  empty_room k [] h = refl
  empty_room k (e ∷ room) h = cc

  pub get_in-put_back :
      (c d k : String) (room : StringMap V) (rooms : StringMap (StringMap V))
      → get_in k (get d (put_back c room rooms))
        ≡ ite (str_dec c d) (get k room) (get_in k (get d rooms))
  get_in-put_back c d k room rooms =
      ground (arith, get-set c d room rooms, get-delete c d rooms, empty_room k room)

  pub set-ensure_room :
      (c : String) (room : StringMap V) (rooms : StringMap (StringMap V))
      → set c room (ensure_room c rooms) ≡ set c room rooms
  set-ensure_room c room rooms = ground (arith, set-set c room [] rooms)

-- A map of rooms whose channels are distinct and whose rooms are not empty and satisfy `P`.
pub record AreRooms {ℓ κ} {V : Type ℓ} (P : String → StringMap V → Type κ)
    (rooms : StringMap (StringMap V)) : Type (ℓ ⊔ κ) where
  pub distinct : Distinct rooms
  pub occupied : Entries (λ c room. is_empty room ≡ false) rooms
  pub valid : Entries P rooms

module _ {ℓ κ} {V : Type ℓ} (P : String → StringMap V → Type κ) where
  -- A changed room that satisfies `P` may be put back.
  pub put_back-AreRooms :
      (c : String) (room : StringMap V) (rooms : StringMap (StringMap V))
      → P c room
      → AreRooms P rooms
      → AreRooms P (put_back c room rooms)
  put_back-AreRooms c room rooms p r = elim (Bool-cases (is_empty room)) [
    | inl gone ↦ rw gone (record {
      distinct = delete-Distinct c rooms r.distinct;
      occupied = delete-Entries (λ c room. is_empty room ≡ false) c rooms r.occupied;
      valid = delete-Entries P c rooms r.valid;
    })
    | inr stays ↦ rw stays (record {
      distinct = set-Distinct c room rooms r.distinct;
      occupied = set-Entries (λ c room. is_empty room ≡ false) c room rooms stays r.occupied;
      valid = set-Entries P c room rooms p r.valid;
    })
  ]

  -- So may a room with a new entry.
  pub set-AreRooms :
      (c k : String) (v : V) (room : StringMap V) (rooms : StringMap (StringMap V))
      → P c (set k v room)
      → AreRooms P rooms
      → AreRooms P (set c (set k v room) rooms)
  set-AreRooms c k v room rooms p r =
      rw (is_empty-set k v room) at (put_back-AreRooms c (set k v room) rooms p r)

  pub get-AreRooms :
      (c : String) (room : StringMap V) (rooms : StringMap (StringMap V))
      → get c rooms ≡ some room
      → AreRooms P rooms
      → P c room
  get-AreRooms c room rooms e r = get-Entries P c room rooms e r.valid
