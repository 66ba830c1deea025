-- ===== src/Target/Handler.antt =====
-- The four handlers of a request, and their choice (ublk.go).
use go_ublksrv.Base.{ℕ, Bool, List, [], ◌∷◌, take, leb, ◌==◌, if◌then◌else◌}
use go_ublksrv.Target.Types.{Request, bytes, capacity, minus_one, type_read, type_write, type_unmap}

-- `type IOHandler interface`, over what is stored: whether there is an error, and for a read the
-- buffer afterwards.
pub record IoHandler (S : Type 0) : Type 0 where
  pub read_at : (p : List ℕ) (off : ℕ) → S → Bool × List ℕ × S
  pub write_at : (p : List ℕ) (off : ℕ) → S → Bool × S
  pub unmap_at : (length off : ℕ) → S → Bool × S

-- Go's `copy`: as many elements as both have.
abbrev pub copy : (dst src : List ℕ) → List ℕ
copy [] src = []
copy (d ∷ dst) [] = d ∷ dst
copy (d ∷ dst) (x ∷ src) = x ∷ copy dst src

-- A handler ends, panics, or waits for room in a channel that nobody reads.
pub data Handled (S : Type 0) : Type 0 where
  handled : Request → S → Handled S
  panics : Handled S
  stuck : Handled S

abbrev pub set_result : (failed : Bool) → Request → Request
set_result failed msg = record msg { result = if failed then minus_one else msg.result }

module _ {S : Type 0} where
  -- `msg.Complete <- struct{}{}`: the channel holds one.
  unfoldable pub complete : Request → S → Handled S
  complete msg s = if msg.complete == 0 then handled (record msg { complete = 1 }) s else stuck

module _ {S : Type 0} ⦃h : IoHandler S⦄ where
  -- `msg.RData[:msg.Size]` panics beyond the capacity.
  unfoldable pub handle_read : Request → S → Handled S
  unfolding complete
  handle_read msg s =
      let p = take msg.size msg.rdata.array in
      let (failed, filled, s') = h.read_at p msg.offset s in
      if leb msg.size (capacity msg.rdata)
      then complete
          (set_result failed
            (record msg { rdata = record { array = copy msg.rdata.array filled; len = msg.size } }))
          s'
      else panics

  unfoldable pub handle_write : Request → S → Handled S
  unfolding complete
  handle_write msg s =
      let (failed, s') = h.write_at (bytes msg.wdata) msg.offset s in
      complete (set_result failed msg) s'

  unfoldable pub handle_unmap : Request → S → Handled S
  unfolding complete
  handle_unmap msg s =
      let (failed, s') = h.unmap_at msg.size msg.offset s in complete (set_result failed msg) s'

  -- The switch of `handleRequests`: a ping, and a type that is unknown, are only completed.
  unfoldable pub handle_request : Request → S → Handled S
  unfolding handle_read handle_write handle_unmap
  handle_request msg s =
      if msg.type == type_read
      then handle_read msg s
      else if msg.type == type_write
      then handle_write msg s
      else if msg.type == type_unmap
      then handle_unmap msg s
      else complete msg s
