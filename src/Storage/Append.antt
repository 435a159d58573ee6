-- ===== src/Storage/Append.antt =====
-- `append` and its helpers.
pub mod Pages
pub mod Reliable
pub mod Bytes
pub mod Placed
pub mod Store
use pico_wenvironment_logger.Prelude.{
  ℕ, zero, suc, ◌+◌, ◌-◌, ◌%◌, Bool, true, false, ltb, leb, ◌==◌, if◌then◌else◌, List, [], ◌∷◌,
  length, take, drop, Option, none, some, min,
}
use pico_wenvironment_logger.Driver.{sector_size, page_size}
use pico_wenvironment_logger.FlashApi.{Flash}
use pico_wenvironment_logger.Protocol.{LogFrameHeader}
use pico_wenvironment_logger.Storage.{
  Config, add32, sub32, wrap_address, next_sector_address, current_sector_end, is_sector_start,
}
use pico_wenvironment_logger.Storage.State.{Storage, guarded, lock_shared_io, unlock_shared_io}
use pico_wenvironment_logger.Storage.Scan.{is_valid_frame_at, rebuild_index_from_flash}
use pico_wenvironment_logger.Storage.Init.{erase_locked}

-- How the loop over the pages ends.
pub data Written (D : Type 0) : Type 0 where
  written : ℕ → D → Written D
  crosses_end io_timeout program_failed : D → Written D

-- The loop goes on after a round that succeeded, and returns at one that failed.
abbrev pub and_then : {D : Type 0} → Written D → (ℕ → D → Written D) → Written D
and_then (written a d) next = next a d
and_then (crosses_end d) next = crosses_end d
and_then (io_timeout d) next = io_timeout d
and_then (program_failed d) next = program_failed d

-- Where the frame goes: here, or at the next sector if it would cross the end of this one.
unfoldable pub frame_address : Config → ℕ → ℕ → ℕ
frame_address c write_addr len =
    let addr = wrap_address c write_addr in
    if ltb (current_sector_end addr) (add32 addr len)
    then wrap_address c (next_sector_address addr)
    else addr

module _ (F : Flash) where
  -- The valid frames that begin in a sector.
  unfoldable pub count_removed : F.Dev → Config → ℕ → ℕ → ℕ → ℕ → ℕ
  count_removed d c sector_end zero addr removed = removed
  count_removed d c sector_end (suc fuel) addr removed =
      elim (if ltb addr sector_end then ltb addr c.end_addr else false) [
        | false ↦ removed
        | true ↦ elim (is_valid_frame_at F d c addr) [
          | none ↦ count_removed d c sector_end fuel (add32 addr 1) removed
          | some (h, size) ↦ count_removed d c sector_end fuel (add32 addr size) (add32 removed 1)
        ]
      ]

  -- The first valid frame from `scan` on, going round the area once.
  unfoldable pub next_frame : F.Dev → Config → ℕ → ℕ → Option ℕ
  next_frame d c zero scan = none
  next_frame d c (suc left) scan = elim (is_valid_frame_at F d c scan) [
    | some _ ↦ some scan
    | none ↦ next_frame d c left (wrap_address c (add32 scan 1))
  ]

  -- `sector_addr + SECTOR_SIZE - addr` bytes are enough fuel for the count.
  unfoldable pub invalidate_frames_in_erased_sector : ℕ → Storage F → Storage F
  invalidate_frames_in_erased_sector sector_addr s =
      let c = s.config in
      let sector_end = add32 sector_addr sector_size in
      let removed = count_removed s.dev c sector_end sector_size sector_addr 0 in
      if s.valid_frame_count == 0
      then s
      else if leb s.valid_frame_count removed
      then record s {
        valid_frame_count = 0;
        oldest_addr = c.start_addr;
        newest_addr = c.start_addr;
        newest_seq = 0;
        write_addr = sector_addr;
      }
      else if (if leb sector_addr s.oldest_addr then ltb s.oldest_addr sector_end else false)
      then elim (next_frame s.dev c (c.end_addr - c.start_addr) (wrap_address c sector_end)) [
        | some a ↦ record s { valid_frame_count = s.valid_frame_count - removed; oldest_addr = a }
        | none ↦ record s {
          valid_frame_count = 0;
          oldest_addr = c.start_addr;
          newest_addr = c.start_addr;
          newest_seq = 0;
        }
      ]
      else record s { valid_frame_count = s.valid_frame_count - removed }

  unfoldable pub update_index_after_append : ℕ → LogFrameHeader → Storage F → Storage F
  update_index_after_append frame_addr h s =
      if s.valid_frame_count == 0
      then record s {
        oldest_addr = frame_addr;
        newest_addr = frame_addr;
        newest_seq = h.seq;
        valid_frame_count = 1;
      }
      else record s {
        newest_addr = frame_addr;
        newest_seq = h.seq;
        valid_frame_count = add32 s.valid_frame_count 1;
      }

  -- One page request, under the shared mutex.
  unfoldable pub program_locked : Bool → F.Dev → ℕ → List ℕ → Written F.Dev
  program_locked shared d addr bytes =
      let (locked, d1) = lock_shared_io F shared d in
      if locked
      then (let (ok, d2) = F.page_program d1 addr bytes in
          if ok
          then written (add32 addr (length bytes)) (unlock_shared_io F shared d2)
          else program_failed (unlock_shared_io F shared d2))
      else io_timeout d1

  -- `while(remaining > 0)`, for the bytes that remain, a chunk up to the end of the page at a time.
  unfoldable pub write_pages : Bool → Config → ℕ → ℕ → List ℕ → F.Dev → Written F.Dev
  unfolding program_locked
  write_pages shared c zero addr bytes d = written addr d
  write_pages shared c (suc fuel) addr [] d = written addr d
  write_pages shared c (suc fuel) addr (x ∷ xs) d =
      let chunk = min (length (x ∷ xs)) (page_size - addr % page_size) in
      elim (ltb c.end_addr (add32 addr chunk)) [
        | true ↦ crosses_end d
        | false ↦
            and_then (program_locked shared d addr (take chunk (x ∷ xs)))
              (λ addr' d'. write_pages shared c fuel addr' (drop chunk (x ∷ xs)) d')
      ]

  -- A failed append puts the write address back, if the code does so, and builds the index anew.
  unfoldable pub give_up : Storage F → Bool × Storage F
  give_up s = let (done, t) = rebuild_index_from_flash F s in (false, t)

  -- The frame has been programmed up to `addr`: it is read back before it enters the index.
  unfoldable pub commit : ℕ → ℕ → ℕ → Storage F → Bool × Storage F
  unfolding give_up update_index_after_append
  commit old_write_addr frame_start addr s = elim (is_valid_frame_at F s.dev s.config frame_start) [
    | none ↦ give_up (record s { write_addr = old_write_addr })
    | some (h, size) ↦ (
      true,
      update_index_after_append frame_start h
          (record s { write_addr = wrap_address s.config addr }),
    )
  ]

  -- From the address on: the pages, then the check.
  unfoldable pub write_frame : ℕ → ℕ → List ℕ → Storage F → Bool × Storage F
  unfolding commit write_pages give_up
  write_frame old_write_addr addr bytes s =
      elim (write_pages s.has_shared_io s.config (length bytes) addr bytes s.dev) [
        | written addr' d ↦ commit old_write_addr addr addr' (record s { dev = d })
        | crosses_end d ↦ give_up (record s { dev = d; write_addr = old_write_addr })
        | io_timeout d ↦ give_up (record s { dev = d })
        | program_failed d ↦ give_up (record s { dev = d; write_addr = old_write_addr })
      ]

  -- At the start of a sector, its frames leave the index and the sector is erased first.
  unfoldable pub place_frame : ℕ → ℕ → List ℕ → Storage F → Bool × Storage F
  unfolding invalidate_frames_in_erased_sector write_frame give_up
  place_frame old_write_addr addr bytes s =
      if is_sector_start addr
      then (let s1 = invalidate_frames_in_erased_sector addr s in
          let (ok, d) = erase_locked F s1.has_shared_io s1.dev addr in
          if ok
          then write_frame old_write_addr addr bytes (record s1 { dev = d })
          else give_up (record s1 { dev = d }))
      else write_frame old_write_addr addr bytes s

  -- What `append` does under its guard.
  unfoldable pub append_guarded : List ℕ → Storage F → Bool × Storage F
  unfolding place_frame frame_address
  append_guarded bytes s =
      if ltb sector_size (length bytes)
      then (false, s)
      else place_frame s.write_addr (frame_address s.config s.write_addr (length bytes)) bytes s

  unfoldable pub append : List ℕ → Storage F → Bool × Storage F
  unfolding append_guarded
  append bytes s =
      if s.initialized
      then (if length bytes == 0 then (false, s) else guarded F false (append_guarded bytes) s)
      else (false, s)
