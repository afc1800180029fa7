-- ===== src/Delivery/Arriving.antt =====
-- AddPacket of filemanagement.cpp, while a file of at most a window of packets arrives and nothing of it
-- is on disk yet.
use boost_asio_threadpool.Base.{
  Bool, Bool-cases, List, ap, arith, false, get_or, if◌then◌else◌, inl, inr, length, ltb, ltb→lt,
  ltb→le, refl, some, sym, true, ℕ, ◌<◌, ◌==◌, ◌∙◌, ◌≡◌, ◌≤◌,
}
use boost_asio_threadpool.Base.Outcome.{returns}
use mathlib.Core.Bool.{false≢true}
use boost_asio_threadpool.Receive.{FileToReceve, add_packet, new_file, stored, window_size}
use boost_asio_threadpool.Receive.Arrive.{add_packet_in_window, slide_after, stored-IsValid}
use boost_asio_threadpool.Receive.Transfer.{IsValid, flag-set, get_or-replicate, new_file-IsValid}

-- A file of `n` packets with the packets of `got`, none of them on disk.
pub record IsArriving (p : ℕ → List ℕ) (n : ℕ) (hash : List ℕ) (got : ℕ → Bool)
    (file : FileToReceve) : Type 0 where
  pub valid : IsValid p file
  pub counted : file.total_packets ≡ n
  pub hashed : file.file_hash ≡ hash
  pub opened : file.stream_open ≡ true
  pub going : file.flush_finished ≡ false
  pub unwritten : file.next_expected_seq ≡ 0
  pub flags : (j : ℕ) → get_or file.all_received_flags j false ≡ got j

-- The packets of `got`, and one more.
abbrev pub with_packet : ℕ → (ℕ → Bool) → ℕ → Bool
with_packet seq got j = if seq == j then true else got j

pub new_file-IsArriving :
    (p : ℕ → List ℕ) (garbage n : ℕ) (hash : List ℕ)
    → IsArriving p n hash (λ j. false) (new_file garbage n hash)
unfolding new_file
new_file-IsArriving p garbage n hash = record {
  valid = unfold new_file in new_file-IsValid p garbage n hash;
  counted = refl;
  hashed = refl;
  opened = refl;
  going = refl;
  unwritten = refl;
  flags = get_or-replicate n;
}

module _ (p : ℕ → List ℕ) (n : ℕ) (hash : List ℕ) (got : ℕ → Bool) (file : FileToReceve)
    (a : IsArriving p n hash got file) where
  in_window : (seq : ℕ) → got seq ≡ false → file.window_start ≤ seq
  in_window seq new = elim (Bool-cases (ltb seq file.window_start)) [
    | inl below ↦ absurd (
        false≢true (
          sym new
          ∙ (sym (a.flags seq)
              ∙ a.valid.window.full seq (omega arith) (ltb→lt seq file.window_start below))))
    | inr above ↦ ltb→le seq file.window_start above
  ]

  -- A packet that has not come yet is taken, and is the last that arrived.
  pub add_packet-IsArriving :
      (seq : ℕ)
      → n ≤ window_size
      → seq < n
      → got seq ≡ false
      → (after : FileToReceve) × (add_packet false file seq (p seq) ≡ returns (after, true))
        × IsArriving p n hash (with_packet seq got) after
        × (after.last_received_seq ≡ seq)
  add_packet-IsArriving seq small h new =
      let inside : seq < length file.all_received_flags = omega (arith, a.valid.sized, a.counted) in
      let lo = in_window seq new in
      let (t, e, c) = slide_after p file a.valid seq inside in
      (
        stored file seq (p seq) t,
        add_packet_in_window false file seq (p seq) (some t) inside lo (omega arith) e,
        record {
          valid =
              stored-IsValid p file a.valid seq t inside lo (omega arith)
                (omega (arith, a.unwritten)) c;
          counted = a.counted;
          hashed = a.hashed;
          opened = a.opened;
          going = a.going;
          unwritten = a.unwritten;
          flags = λ j.
              flag-set file.all_received_flags seq j inside
              ∙ ap (λ b. if seq == j then true else b) (a.flags j);
        },
        refl,
      )

  -- What the handlers note in the file beside its packets.
  pub noted-IsArriving :
      (missing : List ℕ) (able accepted : Bool)
      → IsArriving p n hash got (record file {
        missing_seqs = missing;
        able_to_receive_lost_bag = able;
        is_final_accepted = accepted;
      })
  noted-IsArriving missing able accepted = record {
    valid = record {
      sized = a.valid.sized;
      window = a.valid.window;
      behind = a.valid.behind;
      ahead = a.valid.ahead;
      buffered = a.valid.buffered;
      written = a.valid.written;
      finished = a.valid.finished;
      running = a.valid.running;
    };
    counted = a.counted;
    hashed = a.hashed;
    opened = a.opened;
    going = a.going;
    unwritten = a.unwritten;
    flags = a.flags;
  }

  -- The same packets, told another way.
  pub same-IsArriving :
      (got' : ℕ → Bool) → ((j : ℕ) → got j ≡ got' j) → IsArriving p n hash got' file
  same-IsArriving got' same = record {
    valid = a.valid;
    counted = a.counted;
    hashed = a.hashed;
    opened = a.opened;
    going = a.going;
    unwritten = a.unwritten;
    flags = λ j. a.flags j ∙ same j;
  }
