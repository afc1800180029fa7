-- ===== src/Lib.antt =====
-- A chat and file server over Boost.Asio with its client: packets of a four-byte header, a table of
-- handlers, uploads in packets of 1024 bytes that are written to disk in order, an HTTP side for
-- accounts, and pools of database connections. Paths are from the repository's root.
--
-- A connection (CSession of csession.cpp) reads packets and hands them to the worker (LogicSystem of
-- logicsystem.cpp), which calls the handler that its side has for the message. A client that uploads
-- asks for a number, then sends the file's packets (FileToSend of file.cpp); the server stores them in a
-- window (FileToReceve of file.cpp, FileManagement of filemanagement.cpp), from which a thread writes
-- them to disk, asks for lost ones and compares the hash.
--
--   MsgNode     msgnode.cpp, msgnode.h: the nodes and the layout of a packet.
--   Session     csession.cpp: the reader (Read), the send queue (SendQueue), the file numbers (FileIds).
--   UrlCode     csession.cpp: UrlEncode, UrlDecode and PreParseGetParam.
--   Base64      base64_code.cpp.
--   Hash        hashmd5.cpp.
--   Receive     file.cpp, FileToReceve, with AddPacket of filemanagement.cpp.
--   FileManagement  filemanagement.cpp: the files of each session (Refine: as a function).
--   Accept      cserver.cpp and servicepool.cpp: the accept loops and the services in turn.
--   Server      logicsystem.cpp: the server's handlers of an upload, and what FinalCheck sends.
--   Blocks      SendVerifyCode of logicsystem.cpp and AddHashCode of file.cpp, of the blockwise check.
--   Repair      SendDamagedHashBlock and ServerHandleDamagedHashBag of logicsystem.cpp, and
--               ReWriteCausedByHash of file.cpp.
--   Upload      SendFile of file.cpp, and RequestUpload and HandleReTransmit of logicsystem.cpp.
--   Delivery    an upload from its request to FileComplete, composed of the parts above.
--   Finish      the timer of FileToSend in file.cpp, and ClientHandleFinalBag of logicsystem.cpp.
--   Client      client.cpp: the queue of uploads and the table of files to send; Start has HandleFileUpload of
--               logicsystem.cpp, with the files shared by pointer.
--   Logic       logicsystem.cpp: the queue, the worker and the tables of handlers.
--   Http        the dispatch of csession.cpp, and the account handlers of logicsystem.cpp.
--   Pool        the connection pools of MysqlDao.h and RedisMgr.h, MysqlDao.cpp and RedisMgr.cpp.
--   Config      ConfigMgr.cpp and ConfigMgr.h.
--   Base, Samples  shared names and lemmas; concrete parameters for the examples.
--
-- A definition has the name of its function in snake case. A call gives an Outcome: it returns, throws,
-- blocks for ever, or is undefined behaviour. Numbers are natural; a `short` is its bit pattern below
-- 2 ^ 16, and the code's conversions are written out. Boost.Asio, OpenSSL (the BIO chain and MD5),
-- libmysqlclient and hiredis are parameters, records whose laws are what their documentation says.
--
-- Threads are sequences of steps: a lock's critical section is one step, and what a condition variable
-- waits for is a condition of the step; Receive.Wake splits the disk thread's wait into test, sleep and
-- wake-up, and Server.Race the end of FinalCheck into its two steps. The changes of m_NowSend, which no lock
-- guards, are single steps. Loops are structural, or on fuel: the slide of the window has the
-- length of the flags and one more, a read of a BIO chain and SendFile the length of the text and one
-- more, each of which is one round more than the loop can go on.
-- The disk thread of Delivery has one round for each packet. A thread of FinalCheck takes its step on the file that the table has under its number.
--
-- Not modelled: the parsing of config.ini, the JSON text of the messages, the sockets, logging, the QML and
-- Qt interface, the gRPC client and its generated code, and the JavaScript mail service. VerifyHash is
-- left out, since each VerifyCode message starts one more thread of it on the same stream and counter. A
-- thread of ReWriteCausedByHash takes its turn either before its handler ends or after.
pub mod Delivery
pub mod Base
pub mod MsgNode
pub mod Session
pub mod Base64
pub mod UrlCode
pub mod Hash
pub mod Receive
pub mod Repair
pub mod FileManagement
pub mod Http
pub mod Logic
pub mod Blocks
pub mod Upload
pub mod Pool
pub mod Server
pub mod Accept
pub mod Client
pub mod Config
pub mod Finish
pub mod Samples
