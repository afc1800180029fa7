-- ===== src/Receive/Arrive.antt =====
-- AddPacket of filemanagement.cpp: what a packet that arrives does to the file.
use boost_asio_threadpool.Base.{
  Bool, Bool-cases, List, Option, ap, arith, false, get_or, get_or-set_ne, inl, inr, leb, length,
  length-set, le→ltb, ltb, ltb→le, ltb→lt, lt→leb, lt→ltb, refl, set, some, sym, true, ℕ, ◌%◌, ◌+◌,
  ◌<◌, ◌||◌, ◌∙◌, ◌≡◌, ◌≢◌, ◌≤◌, ◌⊎◌,
}
use boost_asio_threadpool.Base.Outcome.{returns}
use native.Mathlib.Decide.{ℕ_discrete}
use boost_asio_threadpool.Receive.{store_packet}
use boost_asio_threadpool.Receive.{add_packet, stored}
use boost_asio_threadpool.Receive.Transfer.{flag-set, window_within}
use boost_asio_threadpool.Receive.{FileToReceve, slide_window, update, window_size}
use boost_asio_threadpool.Receive.Transfer.{IsValid}
use boost_asio_threadpool.Receive.Window.{FirstClear, slide_window-FirstClear, slide_window_inside}
use mathlib.Core.Bool.{false≢true}

-- A packet inside the window is stored where the slide ends.
pub add_packet_in_window :
    (beyond : Bool) (file : FileToReceve) (seq : ℕ) (packet : List ℕ) (slid : Option ℕ)
    → seq < length file.all_received_flags
    → file.window_start ≤ seq
    → seq < file.window_start + window_size
    → slide_window beyond
        (length file.all_received_flags + 1)
        (set file.all_received_flags seq true)
        file.window_start
      ≡ slid
    → add_packet beyond file seq packet ≡ store_packet file seq packet slid
unfolding add_packet
add_packet_in_window beyond file seq packet slid h lo hi e =
    rw
      (
        e,
        le→ltb seq file.window_start lo,
        lt→leb seq (file.window_start + window_size) hi,
        lt→ltb seq (length file.all_received_flags) h,
      )
      refl

module _ (p : ℕ → List ℕ) (file : FileToReceve) (v : IsValid p file) (seq : ℕ) where
  -- The window after the packet is stored.
  pub slide_after :
      seq < length file.all_received_flags
      → (t : ℕ) × (slide_window false
            (length file.all_received_flags + 1)
            (set file.all_received_flags seq true)
            file.window_start
          ≡ some t)
        × FirstClear (set file.all_received_flags seq true) file.window_start t
  slide_after h =
      slide_window-FirstClear (length file.all_received_flags + 1)
        (set file.all_received_flags seq true) file.window_start
        (omega (arith, length-set file.all_received_flags seq true))
        (omega (
          arith,
          length-set file.all_received_flags seq true,
          window_within file.all_received_flags file.window_start v.window,
        ))

  module _ (t : ℕ) (h : seq < length file.all_received_flags) (lo : file.window_start ≤ seq)
      (hi : seq < file.window_start + window_size)
      (room : seq < file.next_expected_seq + window_size)
      (c : FirstClear (set file.all_received_flags seq true) file.window_start t) where
    full_before : (i : ℕ) → i < t → get_or (set file.all_received_flags seq true) i false ≡ true
    full_before i b = elim (Bool-cases (ltb i file.window_start)) [
      | inl below ↦
          rw
            (
              flag-set file.all_received_flags seq i h,
              v.window.full i (omega arith) (ltb→lt i file.window_start below),
            )
            (ground arith)
      | inr above ↦ c.full i (ltb→le i file.window_start above) b
    ]

    flag_before :
        (i : ℕ)
        → seq ≢ i
        → get_or (set file.all_received_flags seq true) i false ≡ true
        → get_or file.all_received_flags i false ≡ true
    flag_before i ne q = sym (get_or-set_ne file.all_received_flags seq i true false ne) ∙ q

    ahead_after :
        (i : ℕ) → get_or (set file.all_received_flags seq true) i false ≡ true → i < t + window_size
    ahead_after i q = elim (ℕ_discrete seq i) [
      | yes e ↦ omega (arith, c.onwards, e)
      | no ne ↦ omega (arith, c.onwards, v.ahead i (flag_before i ne q))
    ]

    buffered_after :
        (i : ℕ)
        → file.next_expected_seq ≤ i
        → get_or (set file.all_received_flags seq true) i false ≡ true
        → update file.data_buffer (seq % window_size) (p seq) (i % window_size) ≡ p i
    buffered_after i a q = elim (ℕ_discrete seq i) [
      | yes e ↦ ground (arith, ap p e, ap (λ (k : ℕ). k % window_size) e)
      | no ne ↦
          let old = flag_before i ne q in
          let apart : seq % window_size ≢ i % window_size = omega (arith, v.ahead i old, ne) in
          ground (arith, v.buffered i a old, apart)
    ]

    pub stored-IsValid : IsValid p (stored file seq (p seq) t)
    stored-IsValid = record {
      sized = length-set file.all_received_flags seq true ∙ v.sized;
      window = record { onwards = omega arith; clear = c.clear; full = λ i a b. full_before i b };
      behind = omega (arith, c.onwards, v.behind);
      ahead = ahead_after;
      buffered = buffered_after;
      written = v.written;
      finished = v.finished;
      running = v.running;
    }

  -- A packet of the file that lies within a window of what is on disk keeps the file valid, and
  -- `AddPacket` returns, in each of two cases: the bits behind the flags are clear, or the file lacks
  -- another packet as well, so that the slide ends before it reads them.
  pub add_packet-IsValid :
      (beyond : Bool)
      → seq < file.total_packets
      → seq < file.next_expected_seq + window_size
      → (beyond ≡ false)
        ⊎ ((k : ℕ) × (k < file.total_packets)
            × (seq ≢ k)
            × (get_or file.all_received_flags k false ≡ false))
      → (after : FileToReceve) × (taken : Bool) × (add_packet beyond file seq (p seq)
          ≡ returns (after, taken))
        × IsValid p after
  unfolding add_packet
  add_packet-IsValid beyond h room ends = elim (Bool-cases outside) [
    | inl out ↦ (file, false, rw out refl, v)
    | inr in_window ↦
        let (t, e, c) = slide_after (omega (arith, v.sized)) in
        let valid =
          stored-IsValid t (omega (arith, v.sized)) (ground arith) (ground arith) room c in
        (
          stored file seq (p seq) t,
          true,
          rw
              (
                in_window,
                lt→ltb seq (length file.all_received_flags) (omega (arith, v.sized)),
                ends_there t e valid ends,
              )
              refl,
          valid,
        )
  ]
    where
      outside : Bool
      outside = ltb seq file.window_start || leb (file.window_start + window_size) seq

      flags : List Bool
      flags = set file.all_received_flags seq true

      before_gap :
          (t k : ℕ)
          → IsValid p (stored file seq (p seq) t)
          → seq ≢ k
          → get_or file.all_received_flags k false ≡ false
          → t ≤ k
      before_gap t k valid ne lacks = elim (Bool-cases (ltb k t)) [
        | inl below ↦
            let full = valid.window.full k (omega arith) (ltb→lt k t below) in
            let old = get_or-set_ne file.all_received_flags seq k true false ne in
            absurd (false≢true (sym lacks ∙ sym old ∙ full))
        | inr above ↦ ltb→le k t above
      ]

      ends_there :
          (t : ℕ)
          → slide_window false (length file.all_received_flags + 1) flags file.window_start ≡ some t
          → IsValid p (stored file seq (p seq) t)
          → (beyond ≡ false)
            ⊎ ((k : ℕ) × (k < file.total_packets)
                × (seq ≢ k)
                × (get_or file.all_received_flags k false ≡ false))
          → slide_window beyond (length file.all_received_flags + 1) flags file.window_start
            ≡ some t
      ends_there t e valid (inl clear) =
          ap (λ b. slide_window b (length file.all_received_flags + 1) flags file.window_start)
            clear
          ∙ e
      ends_there t e valid (inr (k, within, ne, lacks)) =
          slide_window_inside beyond (length file.all_received_flags + 1) flags file.window_start t
            (omega (
              arith,
              before_gap t k valid ne lacks,
              length-set file.all_received_flags seq true,
              v.sized,
            ))
            e
