-- ===== src/Dma/Slices.antt =====
-- A transfer by blocks comes to its end.
use psx.Base.{
  ℕ, zero, suc, ◌+◌, ◌-◌, ◌*◌, ◌%◌, ◌^◌, ◌<◌, ◌≡◌, ◌∙◌, refl, ap, Bool, true, false, Option, some,
  arith, if_either,
}
use psx.Base.Words.{sub32}
use psx.Cpu.State.{Status, ◌>>=◌}
use psx.Timers.Irq.{interrupt}
use psx.Dma.Control.{Dicr, interrupt_request}
use psx.Dma.Channel.{
  Device, Site, transfer_dir, decrement, sync, start_busy, blocksize, block_count, next_address,
  with_channel, request_interrupt, transfer_end, check_exception, finish_word, copy_word, move_word,
  end_block, do_slice, advance_transfer,
}

-- The address after `k` words.
unfoldable pub walk : Bool → ℕ → ℕ → ℕ
walk down zero address = address
walk down (suc k) address = walk down k (next_address down address)

module _ (device : Device) where
  unfoldable pub advance_times : ℕ → Site (device.State) → Option (Site (device.State))
  advance_times zero s = some s
  advance_times (suc n) s = advance_transfer device s >>= advance_times n

  -- No transfer is under way.
  pub record Ended (s : Site (device.State)) : Type 0 where
    pub stopped : s.channel.running ≡ false
    pub inactive : s.channel.transfer_active ≡ false
    pub ready : start_busy s.channel.control ≡ false

-- `IsQuiet` tells the addresses that raise no exception, while the state behind the bus is `Calm`.
module _ (device : Device) (IsQuiet : ℕ → Type 0) (Calm : device.State → Type 0) where
  -- The accesses of a quiet address succeed, raise no exception and keep the state calm, and the port
  -- is one; a calm device demands data.
  pub record Quiet : Type 0 where
    pub reads :
        (a : ℕ) (s : Status) (d : device.State)
        → IsQuiet a
        → Calm d
        → s.exception ≡ false
        → (x : ℕ) × (t : Status) × (e : device.State) × (device.read a s d ≡ some (x, t, e))
          × (t.exception ≡ false)
          × Calm e
    pub writes :
        (a x : ℕ) (s : Status) (d : device.State)
        → IsQuiet a
        → Calm d
        → s.exception ≡ false
        → (t : Status) × (e : device.State) × (device.write a x s d ≡ some (t, e))
          × (t.exception ≡ false)
          × Calm e
    pub cycles : (n : ℕ) (d : device.State) → Calm d → Calm (device.add_cycles n d)
    pub demands : (d : device.State) → Calm d → device.dreq d ≡ true
    pub port : IsQuiet device.port

  -- A transfer by blocks of `size` words under way, with `left` words left of a block and then `more`
  -- blocks, all of them at quiet addresses.
  pub record Slicing (size left more : ℕ) (s : Site (device.State)) : Type 0 where
    pub slices : sync s.channel ≡ 1
    pub each : blocksize s.channel.shadow_block_control ≡ size
    pub words : s.channel.words_rem ≡ left
    pub blocks : s.channel.blocks_rem ≡ suc more
    pub word : suc more < 2 ^ 32
    pub small : left < 2 ^ 32
    pub quiet : s.status.exception ≡ false
    pub calm : Calm s.state
    pub within :
        (k : ℕ)
        → k < left + more * size
        → IsQuiet (walk (decrement s.channel) k s.channel.curr_address)

  -- An access of the bus, or of two of them, that succeeds.
  abbrev Copies : Site (device.State) → Option (Site (device.State)) → Type 0
  Copies s o =
      (t : Status) × (e : device.State) × (o ≡ some (record s { status = t; state = e }))
      × (t.exception ≡ false)
      × Calm e

  copy_word-Copies :
      (from to : ℕ) (s : Site (device.State))
      → Quiet
      → IsQuiet from
      → IsQuiet to
      → Calm s.state
      → s.status.exception ≡ false
      → Copies s (copy_word device from to s)
  unfolding copy_word
  copy_word-Copies from to s q source target calm h =
      let (x, t, d, reads, unraised, calm') = q.reads from s.status s.state source calm h in
      let (u, e, writes, still, calm'') = q.writes to x t d target calm' unraised in
      (u, e, rw (reads, writes) refl, still, calm'')

  move_word-Copies :
      (s : Site (device.State))
      → Quiet
      → IsQuiet s.channel.curr_address
      → Calm s.state
      → s.status.exception ≡ false
      → Copies s (move_word device s)
  unfolding move_word
  move_word-Copies s q here calm h =
      if_either (Copies s) (transfer_dir s.channel) (copy_word-Copies _ _ s q here q.port calm h)
        (copy_word-Copies _ _ s q q.port here calm h)

  one_word :
      (size n m : ℕ) (s : Site (device.State))
      → Quiet
      → Slicing size (suc n) m s
      → (t : Site (device.State)) × (advance_transfer device s ≡ some t) × Slicing size n m t
  unfolding advance_transfer do_slice finish_word check_exception walk
  one_word size n m s q v =
      let here : IsQuiet s.channel.curr_address = v.within 0 (omega arith) in
      let (t, e, moves, unraised, calm) = move_word-Copies s q here v.calm v.quiet in
      (
        record s {
          status = t;
          state = device.add_cycles 2 e;
          channel = record (s.channel) {
            curr_address = next_address (decrement s.channel) s.channel.curr_address;
            words_rem = sub32 s.channel.words_rem 1;
          };
        },
        ground (arith, v.slices, v.words, moves, unraised),
        record {
          slices = v.slices;
          each = v.each;
          words = omega (arith, v.words, v.small);
          blocks = v.blocks;
          word = v.word;
          small = omega (arith, v.small);
          quiet = unraised;
          calm = q.cycles 2 e calm;
          within = λ k h. v.within (suc k) (omega arith);
        },
      )

  block_ends :
      (size m : ℕ) (s : Site (device.State))
      → Slicing size 0 m s
      → advance_transfer device s ≡ some (end_block device s)
  unfolding advance_transfer do_slice
  block_ends size m s v = ground (arith, v.slices, v.words)

  -- The channel with one block less.
  abbrev counted : Site (device.State) → Site (device.State)
  counted s =
      let raw = s.channel.shadow_block_control in
      record s {
        channel = record (s.channel) {
          blocks_rem = sub32 s.channel.blocks_rem 1;
          shadow_block_control = blocksize raw + (block_count raw + 2 ^ 16 - 1) % 2 ^ 16 * 2 ^ 16;
        };
      }

  abbrev resumed : Site (device.State) → Site (device.State)
  resumed s =
      let u = request_interrupt device false (counted s) in
      with_channel device u
        (record (u.channel) { words_rem = blocksize s.channel.shadow_block_control })

  resumes :
      (size m : ℕ) (s : Site (device.State))
      → Quiet
      → Slicing size 0 (suc m) s
      → end_block device s ≡ resumed s
  unfolding end_block
  resumes size m s q v = ground (arith, v.blocks, v.word, q.demands s.state v.calm)

  interrupt_keeps :
      (id : ℕ) (last : Bool) (d : Dicr) (s : Status)
      → s.exception ≡ false
      → ((interrupt_request id last d s).1).exception ≡ false
  unfolding interrupt_request interrupt
  interrupt_keeps id last d s h = ground (arith, h)

  resumed-Slicing :
      (size m : ℕ) (s : Site (device.State))
      → Slicing size 0 (suc m) s
      → Slicing size size m (resumed s)
  unfolding request_interrupt
  resumed-Slicing size m s v = record {
    slices = v.slices;
    each = omega (arith, v.each);
    words = v.each;
    blocks = omega (arith, v.blocks, v.word);
    word = omega (arith, v.word);
    small = omega (arith, v.each);
    quiet = interrupt_keeps s.channel.id false s.controller.int_control s.status v.quiet;
    calm = v.calm;
    within = λ k h. v.within k (omega arith);
  }

  stops :
      (size : ℕ) (s : Site (device.State))
      → Slicing size 0 0 s
      → end_block device s ≡ transfer_end device true (counted s)
  unfolding end_block
  stops size s v = ground (arith, v.blocks)

  transfer_end-Ended : (s : Site (device.State)) → Ended device (transfer_end device true s)
  unfolding transfer_end request_interrupt
  transfer_end-Ended s = record { stopped = refl; inactive = refl; ready = ground arith }

  advance_once :
      (n k : ℕ) (s t : Site (device.State))
      → advance_transfer device s ≡ some t
      → k ≡ suc n
      → advance_times device k s ≡ advance_times device n t
  unfolding advance_times
  advance_once n k s t e h =
      ap (λ i. advance_times device i s) h ∙ ap (λ o. o >>= advance_times device n) e

  none_left : (s : Site (device.State)) → advance_times device 0 s ≡ some s
  unfolding advance_times
  none_left s = refl

  -- A transfer by blocks is under way, the device goes on demanding data, and the accesses of the bus at the port and
  -- at the addresses of the words that are left raise no exception. Then the transfer comes to an end, after one
  -- advance for each word and one for each block.
  pub slices_end :
      (size left more : ℕ) (s : Site (device.State))
      → Quiet
      → Slicing size left more s
      → (t : Site (device.State)) × (advance_times device (left + suc (more * suc size)) s ≡ some t)
        × Ended device t
  slices_end size (suc left) more s q v =
      let (t, e, w) = one_word size left more s q v in
      let (u, rest, ended) = slices_end size left more t q w in
      (u, advance_once _ _ s t e (omega arith) ∙ rest, ended)
  slices_end size zero zero s q v = (
    transfer_end device true (counted s),
    advance_once 0 _ s _ (block_ends size zero s v ∙ ap some (stops size s v)) (omega arith)
        ∙ none_left (transfer_end device true (counted s)),
    transfer_end-Ended (counted s),
  )
  slices_end size zero (suc more) s q v =
      let (u, rest, ended) =
        slices_end size size more (resumed s) q (resumed-Slicing size more s v) in
      let e = block_ends size (suc more) s v ∙ ap some (resumes size more s q v) in
      (u, advance_once _ _ s (resumed s) e (one_more more size) ∙ rest, ended)
    where
      one_more : (a b : ℕ) → 0 + suc (suc a * suc b) ≡ suc (b + suc (a * suc b))
      one_more a b = omega arith
