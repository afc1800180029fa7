-- ===== src/Server/Race.antt =====
-- The end of FinalCheck, file.cpp, and HandleUploadRequest of logicsystem.cpp between its two steps: the
-- number is given back before the file leaves the table, and no lock holds over the two.
use boost_asio_threadpool.Base.{Bool, Bytes_eq, String_eq, ℕ_eq}
