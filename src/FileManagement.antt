-- ===== src/FileManagement.antt =====
-- filemanagement.cpp: the files that are being received, by session and number. The files are shared
-- objects, so that a change of one is a change of the table's entry.
pub mod Find
pub mod Refine
mod Examples
use boost_asio_threadpool.Base.{
  Bool, Bytes_eq, List, Option, String, String_eq, [], erase, false, if◌then◌else◌, insert, lookup,
  none, some, true, ℕ, ℕ_eq,
}
use boost_asio_threadpool.Base.Outcome.{Outcome, returns, throws}
use boost_asio_threadpool.Receive.{is_nil}

-- `m_Files`.
abbrev pub Files : Type 0 → Type 0
Files F = List (String × List (ℕ × F))

unfoldable pub files_of : {F : Type 0} → Option (List (ℕ × F)) → List (ℕ × F)
files_of none = []
files_of (some inner_map) = inner_map

-- `operator[]` makes the session's map if there is none; `emplace` fails on a number that is taken.
unfoldable pub emplace :
    {F : Type 0} → Option F → String → ℕ → F → List (ℕ × F) → Files F → Outcome (Files F)
emplace none session_uuid file_id file inner_map files =
    returns (insert session_uuid (insert file_id file inner_map) files)
emplace (some old) session_uuid file_id file inner_map files = throws

unfoldable pub add_file : {F : Type 0} → String → ℕ → F → Files F → Outcome (Files F)
add_file session_uuid file_id file files =
    let inner_map = files_of (lookup session_uuid files) in
    emplace (lookup file_id inner_map) session_uuid file_id file inner_map files

unfoldable pub find_file : {F : Type 0} → String → ℕ → Files F → Option F
find_file session_uuid file_id files = lookup file_id (files_of (lookup session_uuid files))

-- The session's entry goes with its last file.
unfoldable pub remove_from :
    {F : Type 0} → Option F → String → ℕ → List (ℕ × F) → Files F → Bool × Files F
remove_from none session_uuid file_id inner_map files = (false, files)
remove_from (some old) session_uuid file_id inner_map files =
    let inner_map' = erase file_id inner_map in
    (
      true,
      if is_nil inner_map' then erase session_uuid files else insert session_uuid inner_map' files,
    )

unfoldable pub remove_file : {F : Type 0} → String → ℕ → Files F → Bool × Files F
remove_file session_uuid file_id files =
    let inner_map = files_of (lookup session_uuid files) in
    remove_from (lookup file_id inner_map) session_uuid file_id inner_map files
