-- ===== src/Delivery/Gap.antt =====
-- CheckMissingPackets of file.cpp on a file that lacks one run of packets.
use boost_asio_threadpool.Base.{
  Bool-cases, [], ap, arith, false, get_or, inl, inr, leb, refl, suc, sym, ◌∙◌, true, zero, ℕ, ◌+◌,
  ◌-◌, ◌<◌, ◌≡◌, ◌≤◌, lt→leb,
}
use mathlib.Core.Bool.{false≢true}
use boost_asio_threadpool.Delivery.{range}
use boost_asio_threadpool.Receive.{FileToReceve, missing_from, missing_seqs_of}
use boost_asio_threadpool.Receive.Window.{FirstClear}

module _ (file : FileToReceve) where
  missing_from_none :
      (n i : ℕ)
      → ((j : ℕ) → i ≤ j → j < file.total_packets → get_or file.all_received_flags j false ≡ true)
      → missing_from false n file i ≡ []
  unfolding missing_from
  missing_from_none zero i all = refl
  missing_from_none (suc n) i all = elim (Bool-cases (leb file.total_packets i)) [
    | inl past ↦ rw past refl
    | inr within ↦
        rw (within, all i (omega arith) (ground arith))
          (missing_from_none n (i + 1) (λ j a b. all j (omega arith) b))
  ]

  missing_from-range :
      (k n i : ℕ)
      → k ≤ n
      → i + k ≤ file.total_packets
      → ((j : ℕ) → i ≤ j → j < i + k → get_or file.all_received_flags j false ≡ false)
      → ((j : ℕ)
          → i + k ≤ j
          → j < file.total_packets
          → get_or file.all_received_flags j false ≡ true)
      → missing_from false n file i ≡ range i k
  unfolding missing_from
  missing_from-range zero n i h fits lacks has =
      missing_from_none n i (λ j a b. has j (omega arith) b)
  missing_from-range (suc k) zero i h fits lacks has = absurd (omega arith)
  missing_from-range (suc k) (suc n) i h fits lacks has =
      rw
        (
          lt→leb i file.total_packets (omega arith),
          lacks i (omega arith) (omega arith),
          missing_from-range k n (i + 1) (omega arith) (omega arith)
              (λ j a b. lacks j (omega arith) (omega arith)) (λ j a b. has j (omega arith) b),
        )
        refl

  window_at_start :
      FirstClear file.all_received_flags 0 file.window_start
      → get_or file.all_received_flags 0 false ≡ false
      → file.window_start ≡ 0
  window_at_start c lacks = elim (Bool-cases (leb file.window_start 0)) [
    | inl e ↦ ground arith
    | inr e ↦ absurd (false≢true (sym lacks ∙ c.full 0 (omega arith) (ground arith)))
  ]

  -- A file that has exactly the packets from `k` on, the last of all included, lacks the first `k`.
  pub missing_seqs_of-range :
      (k : ℕ)
      → FirstClear file.all_received_flags 0 file.window_start
      → 0 < k
      → k ≤ file.last_received_seq
      → k ≤ file.total_packets
      → ((j : ℕ) → j < k → get_or file.all_received_flags j false ≡ false)
      → ((j : ℕ) → k ≤ j → j < file.total_packets → get_or file.all_received_flags j false ≡ true)
      → missing_seqs_of false file ≡ range 0 k
  unfolding missing_seqs_of
  missing_seqs_of-range k c pos_ last fits lacks has =
      ap (λ w. missing_from false (file.last_received_seq - w) file w)
        (window_at_start c (lacks 0 pos_))
      ∙ (missing_from-range k (file.last_received_seq - 0) 0 (omega arith) (omega arith)
          (λ j a b. lacks j (omega arith)) (λ j a b. has j (omega arith) b))
