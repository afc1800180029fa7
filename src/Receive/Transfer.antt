-- ===== src/Receive/Transfer.antt =====
-- The receive thread (AddPacket) and the disk thread (FlushToDisk) over one file, in any order.
use boost_asio_threadpool.Base.{
  ==_iff, Bool, Bool-cases, List, [], arith, false, get_or, get_or-set_ne, get_or-set_self,
  if◌then◌else◌, inl, inr, length, length-replicate, refl, replicate, set, subst, suc, sym, true,
  zero, ℕ, ◌%◌, ◌++◌, ◌+◌, ◌<◌, ◌==◌, ◌∙◌, ◌≡◌, ◌≤◌,
}
use mathlib.Core.Bool.{false≢true}
use boost_asio_threadpool.Receive.{FileToReceve, window_size, new_file}
use boost_asio_threadpool.Receive.Window.{FirstClear, set_within}

-- The first `n` packets of a source, one after the other.
abbrev pub prefix : (ℕ → List ℕ) → ℕ → List ℕ
prefix p zero = []
prefix p (suc n) = prefix p n ++ p n

pub record IsValid (p : ℕ → List ℕ) (file : FileToReceve) : Type 0 where
  pub sized : length file.all_received_flags ≡ file.total_packets
  pub window : FirstClear file.all_received_flags 0 file.window_start
  pub behind : file.next_expected_seq ≤ file.window_start
  pub ahead :
      (i : ℕ) → get_or file.all_received_flags i false ≡ true → i < file.window_start + window_size
  pub buffered :
      (i : ℕ)
      → file.next_expected_seq ≤ i
      → get_or file.all_received_flags i false ≡ true
      → file.data_buffer (i % window_size) ≡ p i
  pub written : file.saved ≡ prefix p file.next_expected_seq
  pub finished : file.flush_finished ≡ true → file.next_expected_seq ≡ file.total_packets
  pub running :
      file.flush_finished ≡ false
      → 0 < file.total_packets
      → file.next_expected_seq < file.total_packets

pub window_within : (flags : List Bool) (t : ℕ) → FirstClear flags 0 t → t ≤ length flags
window_within flags zero c = omega arith
window_within flags (suc t) c =
    omega (arith, set_within flags t (c.full t (omega arith) (omega arith)))

pub get_or-replicate : (n i : ℕ) → get_or (replicate n false) i false ≡ false
get_or-replicate zero i = refl
get_or-replicate (suc n) zero = refl
get_or-replicate (suc n) (suc i) = get_or-replicate n i

-- A flag after a write of `true` at `seq`.
pub flag-set :
    (flags : List Bool) (seq i : ℕ)
    → seq < length flags
    → get_or (set flags seq true) i false ≡ (if seq == i then true else get_or flags i false)
flag-set flags seq i h = elim (Bool-cases (seq == i)) [
  | inl e ↦ rw e (
      subst (λ k. get_or (set flags seq true) k false ≡ true) ((==_iff seq i).0 e)
        (get_or-set_self flags seq true false h))
  | inr ne ↦ rw ne (get_or-set_ne flags seq i true false (ground arith))
]

pub new_file-IsValid :
    (p : ℕ → List ℕ) (garbage n : ℕ) (hash : List ℕ) → IsValid p (new_file garbage n hash)
unfolding new_file
new_file-IsValid p garbage n hash = record {
  sized = length-replicate n false;
  window = record {
    onwards = omega arith;
    clear = get_or-replicate n 0;
    full = λ i a b. absurd (omega arith);
  };
  behind = omega arith;
  ahead = λ i h. absurd (false≢true (sym (get_or-replicate n i) ∙ h));
  buffered = λ i a h. absurd (false≢true (sym (get_or-replicate n i) ∙ h));
  written = refl;
  finished = λ h. cc;
  running = λ h b. b;
}
