-- ===== src/Receive/Run.antt =====
-- Every interleaving of arrivals and disk writes, from the constructor on.
use boost_asio_threadpool.Base.{
  Bool, Bool-cases, List, ap, arith, false, get_or, inl, inr, refl, subst, suc, true, zero, ℕ, ◌+◌,
  ◌<◌, ◌∙◌, ◌≡◌, ◌≤◌,
}
use boost_asio_threadpool.Base.Outcome.{Outcome, returns, ◌>>=◌}
use boost_asio_threadpool.Receive.{FileToReceve, add_packet, flush_to_disk, new_file, window_size}
use boost_asio_threadpool.Receive.Arrive.{add_packet-IsValid}
use boost_asio_threadpool.Receive.Flush.{flush_to_disk-IsValid, flushed}
use boost_asio_threadpool.Receive.Transfer.{IsValid, new_file-IsValid, prefix}

-- What one of the two threads does. A packet carries its source's bytes, and arrives within a window
-- of what is on disk.
pub data Step (p : ℕ → List ℕ) (file : FileToReceve) (after : FileToReceve) : Type 0 where
  arrive :
      (seq : ℕ) (taken : Bool)
      → seq < file.total_packets
      → seq < file.next_expected_seq + window_size
      → add_packet false file seq (p seq) ≡ returns (after, taken)
      → Step p file after
  write : flush_to_disk false file ≡ returns after → Step p file after

pub data Reach (p : ℕ → List ℕ) (start : FileToReceve) : FileToReceve → Type 0 where
  begin : Reach p start start
  later : {file after : FileToReceve} → Reach p start file → Step p file after → Reach p start after

Step-IsValid :
    {p : ℕ → List ℕ} {file after : FileToReceve}
    → Step p file after
    → IsValid p file
    → IsValid p after
Step-IsValid {p} {file} {after} (arrive seq taken h room e) v =
    let (after', taken', e', v') = add_packet-IsValid p file v seq false h room (inl refl) in
    subst (IsValid p) (ground arith) v'
Step-IsValid {p} {file} {after} (write e) v = flush_to_disk-IsValid p file v after e

pub Reach-IsValid :
    {p : ℕ → List ℕ} {start file : FileToReceve}
    → Reach p start file
    → IsValid p start
    → IsValid p file
Reach-IsValid begin v = v
Reach-IsValid (later r s) v = Step-IsValid s (Reach-IsValid r v)

-- In whatever order the packets come, repeated or not, and however the disk thread is scheduled, the
-- content on disk is the first packets of the source in order. Each packet comes within a window of
-- what is on disk.
pub Reach-saved :
    (p : ℕ → List ℕ) (garbage n : ℕ) (hash : List ℕ) (file : FileToReceve)
    → Reach p (new_file garbage n hash) file
    → file.saved ≡ prefix p file.next_expected_seq
Reach-saved p garbage n hash file r = (Reach-IsValid r (new_file-IsValid p garbage n hash)).written

-- Once the disk thread reports that it has finished, the content on disk is the whole source, in
-- whatever order its packets came. Each packet comes within a window of what is on disk.
pub Reach-saved_whole :
    (p : ℕ → List ℕ) (garbage n : ℕ) (hash : List ℕ) (file : FileToReceve)
    → Reach p (new_file garbage n hash) file
    → file.flush_finished ≡ true
    → file.saved ≡ prefix p file.total_packets
Reach-saved_whole p garbage n hash file r f =
    let v = Reach-IsValid r (new_file-IsValid p garbage n hash) in
    v.written ∙ ap (prefix p) (v.finished f)

-- Once every packet has arrived, a disk thread that has not finished writes its next packet, and does
-- not wait.
all_arrived-flush :
    (p : ℕ → List ℕ) (file : FileToReceve)
    → IsValid p file
    → 0 < file.total_packets
    → ((i : ℕ) → i < file.total_packets → get_or file.all_received_flags i false ≡ true)
    → file.stream_open ≡ true
    → file.flush_finished ≡ false
    → flush_to_disk false file ≡ returns (flushed p file)
unfolding flush_to_disk
all_arrived-flush p file v pos_ all open_ going =
    rw (all file.next_expected_seq (v.running going pos_), open_) refl

-- The disk thread, run for `n` rounds or to its end.
unfoldable pub flush_all : ℕ → FileToReceve → Outcome FileToReceve
flush_all zero file = returns file
flush_all (suc n) file = elim file.flush_finished [
  | true ↦ returns file
  | false ↦ flush_to_disk false file >>= flush_all n
]

pub flush_all_done :
    (n : ℕ) (file : FileToReceve)
    → file.flush_finished ≡ true
    → flush_all (suc n) file ≡ returns file
unfolding flush_all
flush_all_done n file done = simp (done, flush_all)

pub flush_all_going :
    (n : ℕ) (file : FileToReceve)
    → file.flush_finished ≡ false
    → flush_all (suc n) file ≡ (flush_to_disk false file >>= flush_all n)
unfolding flush_all
flush_all_going n file going = simp (going, flush_all)

-- When all packets of a valid, non-empty file have arrived and its stream is open, the disk thread
-- finishes within as many rounds as the file has packets left to write, and the whole source is on
-- disk.
pub flush_all-finishes :
    (p : ℕ → List ℕ) (n : ℕ) (file : FileToReceve)
    → IsValid p file
    → 0 < file.total_packets
    → ((i : ℕ) → i < file.total_packets → get_or file.all_received_flags i false ≡ true)
    → file.stream_open ≡ true
    → file.total_packets ≤ n + file.next_expected_seq
    → (after : FileToReceve) × (flush_all n file ≡ returns after)
      × (after.flush_finished ≡ true)
      × (after.saved ≡ prefix p file.total_packets)
unfolding flush_all
flush_all-finishes p zero file v pos_ all open_ fuel = elim (Bool-cases file.flush_finished) [
  | inl done ↦ (file, refl, done, v.written ∙ ap (prefix p) (v.finished done))
  | inr going ↦ absurd (omega (arith, v.running going pos_))
]
flush_all-finishes p (suc n) file v pos_ all open_ fuel = elim (Bool-cases file.flush_finished) [
  | inl done ↦ (file, flush_all_done n file done, done, v.written ∙ ap (prefix p) (v.finished done))
  | inr going ↦
      let (after, e, f, w) =
        flush_all-finishes p n (flushed p file)
          (flush_to_disk-IsValid p file v (flushed p file)
            (all_arrived-flush p file v pos_ all open_ going))
          pos_ all open_ (omega arith) in
      (after, rw (going, flush_all, all_arrived-flush p file v pos_ all open_ going) e, f, w)
]
