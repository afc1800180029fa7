-- ===== src/Receive/Missing.antt =====
-- CheckMissingPackets of file.cpp: which packets it reports, and which it cannot.
use boost_asio_threadpool.Base.{
  Bool, Bool-cases, List, [], arith, false, get_or, if◌then◌else◌, inl, inr, leb, ltb, refl, suc,
  true, zero, ℕ, ◌+◌, ◌-◌, ◌<◌, ◌==◌, ◌∷◌, ◌≡◌, ◌≤◌,
}
use boost_asio_threadpool.Receive.{check_missing_packets, missing_seqs_of}
use boost_asio_threadpool.Receive.Window.{FirstClear}
use boost_asio_threadpool.Receive.{FileToReceve, missing_from}

abbrev pub contains : ℕ → List ℕ → Bool
contains a [] = false
contains a (x ∷ xs) = if a == x then true else contains a xs

module _ (file : FileToReceve) where
  -- The test that the loop makes of one sequence number.
  abbrev pub is_missing : ℕ → Bool
  is_missing j =
      if ltb j file.total_packets
      then (if get_or file.all_received_flags j false then false else true)
      else false

  contains-missing_from :
      (n i j : ℕ)
      → contains j (missing_from false n file i)
        ≡ (if leb i j then (if ltb j (i + n) then is_missing j else false) else false)
  unfolding missing_from
  contains-missing_from zero i j = ground arith
  contains-missing_from (suc n) i j = ground (arith, contains-missing_from n (i + 1) j)

  -- What `CheckMissingPackets` ought to find: the packets before the last that arrived.
  abbrev pub lost_before_last : ℕ → Bool
  lost_before_last j = if ltb j file.last_received_seq then is_missing j else false

  contains-missing_seqs_of :
      FirstClear file.all_received_flags 0 file.window_start
      → (j : ℕ) → contains j (missing_seqs_of false file) ≡ lost_before_last j
  unfolding missing_seqs_of
  contains-missing_seqs_of c j = ground (
    arith,
    contains-missing_from (file.last_received_seq - file.window_start) file.window_start j,
    c.full j,
  )

  -- The check stores a packet as missing exactly if it is one of the file before the last arrival that
  -- has not arrived, and it reports a gap if there is such a packet; the window must be at its place.
  pub check_missing_packets_lem :
      FirstClear file.all_received_flags 0 file.window_start
      → (j : ℕ)
      → let (after, found) = check_missing_packets false file in
        (if found then contains j after.missing_seqs else false) ≡ lost_before_last j
  unfolding check_missing_packets
  check_missing_packets_lem c j = ground (arith, contains-missing_seqs_of c j)

  missing_from_full :
      (n i : ℕ)
      → ((j : ℕ) → j < file.total_packets → get_or file.all_received_flags j false ≡ true)
      → missing_from false n file i ≡ []
  unfolding missing_from
  missing_from_full zero i all = refl
  missing_from_full (suc n) i all = elim (Bool-cases (leb file.total_packets i)) [
    | inl past ↦ rw past refl
    | inr within ↦ rw (within, all i (ground arith)) (missing_from_full n (i + 1) all)
  ]

  pub missing_seqs_of_full :
      ((j : ℕ) → j < file.total_packets → get_or file.all_received_flags j false ≡ true)
      → missing_seqs_of false file ≡ []
  unfolding missing_seqs_of
  missing_seqs_of_full all =
      missing_from_full (file.last_received_seq - file.window_start) file.window_start all

  pub missing_seqs_of_behind :
      file.last_received_seq ≤ file.window_start → missing_seqs_of false file ≡ []
  unfolding missing_seqs_of missing_from
  missing_seqs_of_behind h =
      let none_left : file.last_received_seq - file.window_start ≡ 0 = omega arith in
      rw none_left refl
