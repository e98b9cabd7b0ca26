-- ===== src/Storage/Invariant/Positions.antt =====
-- ShiftQueuePositions and MoveQueuePosition keep the whole invariant.
use lunefetch.Base.{
  ℕ, zero, suc, ◌+◌, ◌==◌, refl, if◌then◌else◌, List, [], ◌∷◌, Option, none, some, ◌&&◌,
}
use lunefetch.Base.Int64.{ℤ, pos, negsuc}
use lunefetch.Storage.Sql.{M, pure, exec, ◌>>=◌, ◌>>◌, transaction, query, first}
use lunefetch.Storage.Keeps
use lunefetch.Storage.Keeps.{Keeps}
use lunefetch.Storage.Downloads.{has_id, update_download}
use lunefetch.Storage.Queue.{
  is_queued, place, vacate, renumber, shift_queue_positions, swap_positions, move_from,
  move_queue_position, queued_position, move_target,
}
use lunefetch.Storage.Invariant.Slots.{HasSlots}
use lunefetch.Storage.Invariant.Renumber.{shift_queue_positions-HasSlots}
use lunefetch.Storage.Invariant.Swap.{move_queue_position-HasSlots}
use lunefetch.Storage.Invariant.Operations.{IsValid, IsBooked, update_downloads-IsBooked}

place-IsBooked : (id p : ℕ) → Keeps IsBooked (exec (place id p))
unfolding update_download
place-IsBooked id p = Keeps.exec-Keeps IsBooked (place id p) (λ db.
    update_downloads-IsBooked (has_id id) (λ r. record r { queue_position = some p }) db (λ r. refl)
      (λ r. refl))

renumber-IsBooked : (ids : List ℕ) (i : ℕ) → Keeps IsBooked (renumber ids i)
unfolding renumber
renumber-IsBooked [] i = Keeps.pure-Keeps IsBooked tt
renumber-IsBooked (id ∷ ids) i =
    Keeps.>>=-Keeps IsBooked (exec (place id (i + 1))) (λ _. renumber ids (i + 1))
      (place-IsBooked id (i + 1)) (λ _. renumber-IsBooked ids (i + 1))

shift_queue_positions-IsBooked : Keeps IsBooked shift_queue_positions
unfolding shift_queue_positions
shift_queue_positions-IsBooked =
    Keeps.>>=-Keeps IsBooked _ (λ ids. transaction (renumber ids 0)) (Keeps.query-Keeps IsBooked _)
      (λ ids. Keeps.transaction-Keeps IsBooked _ (renumber-IsBooked ids 0))

swap_positions-IsBooked : (id p q : ℕ) → Keeps IsBooked (swap_positions id p q)
unfolding swap_positions
swap_positions-IsBooked id p q = Keeps.transaction-Keeps IsBooked _ (
    Keeps.>>=-Keeps IsBooked (exec (vacate id p q)) (λ _. exec (place id q))
      (Keeps.exec-Keeps IsBooked (vacate id p q) (λ db.
        update_downloads-IsBooked _ (λ r. record r { queue_position = some p }) db (λ r. refl)
          (λ r. refl)))
      (λ _. place-IsBooked id q))

move_from-IsBooked : (id : ℕ) (delta : ℤ) (o : Option ℕ) → Keeps IsBooked (move_from id delta o)
unfolding move_from
move_from-IsBooked id delta none = Keeps.pure-Keeps IsBooked tt
move_from-IsBooked id delta (some p) =
    Keeps.>>=-Keeps IsBooked _
      (λ n.
        if move_target p delta n == p then pure tt else swap_positions id p (move_target p delta n))
      (Keeps.query-Keeps IsBooked _)
      (λ n.
        Keeps.if-Keeps IsBooked (move_target p delta n == p) (pure tt) _
          (Keeps.pure-Keeps IsBooked tt) (swap_positions-IsBooked id p (move_target p delta n)))

move_found-IsBooked :
    (id : ℕ) (delta : ℤ)
    → Keeps IsBooked (
        shift_queue_positions
        >> (query (λ db. first (λ r. has_id id r && is_queued r) db.downloads) >>= λ found.
            move_from id delta (queued_position found)))
move_found-IsBooked id delta =
    Keeps.>>=-Keeps IsBooked shift_queue_positions _ shift_queue_positions-IsBooked (λ _.
      Keeps.>>=-Keeps IsBooked _ (λ found. move_from id delta (queued_position found))
        (Keeps.query-Keeps IsBooked _)
        (λ found. move_from-IsBooked id delta (queued_position found)))

move_queue_position-IsBooked : (id : ℕ) (delta : ℤ) → Keeps IsBooked (move_queue_position id delta)
unfolding move_queue_position
move_queue_position-IsBooked id (pos zero) = Keeps.pure-Keeps IsBooked tt
move_queue_position-IsBooked id (pos (suc n)) = move_found-IsBooked id (pos (suc n))
move_queue_position-IsBooked id (negsuc n) = move_found-IsBooked id (negsuc n)

module _ {A : Type 0} (m : M A) (slots : Keeps HasSlots m) (books : Keeps IsBooked m) where
  both-IsValid : Keeps IsValid m
  both-IsValid c v =
      let b = books c (record { summed = v.summed; owned = v.owned }) in
      record { slots = slots c v.slots; summed = b.summed; owned = b.owned }

pub shift_queue_positions-IsValid : Keeps IsValid shift_queue_positions
shift_queue_positions-IsValid =
    both-IsValid shift_queue_positions shift_queue_positions-HasSlots shift_queue_positions-IsBooked

pub move_queue_position-IsValid :
    (id : ℕ) (delta : ℤ) → Keeps IsValid (move_queue_position id delta)
move_queue_position-IsValid id delta =
    both-IsValid (move_queue_position id delta) (move_queue_position-HasSlots id delta)
      (move_queue_position-IsBooked id delta)
