-- ===== src/Lib.antt =====
-- XiguChat: the chat servers of server/services/ and the Qt client of client/, as definitions that
-- follow the C++ code, with theorems about them.
--
-- A client asks the GateServer for a login over HTTP (Gate); the StatusServer picks a ChatServer
-- for it and issues a token (Status). The client then talks to that ChatServer over TCP in packets
-- of a two-byte id, a two-byte length and a JSON body (Wire for the server's side, Client for the
-- client's). A packet that CSession has read goes to LogicSystem's queue, whose thread checks it
-- and calls the handler of its id (Chat). Handlers answer through the sending half of CSession
-- (Chat/Session), and Redis and MySQL hold what the servers share.
--
-- Parts, and the code that they follow:
--   Prelude        lists, tests, integers and texts; Prelude/Decimal is std::to_string and
--                  std::from_chars of an int
--   Wire           Node: server/services/ChatServer/src/MsgNode.cpp (MsgNode, RecvNode, SendNode);
--                  Read: the reads of src/CSession.cpp (asyncReadFull, asyncReadLen, AsyncReadHead,
--                  AsyncReadBody)
--   Client         Tcp: client/network/tcpmgr.cpp (the readyRead slot, CloseConnection,
--                  slot_send_data); History: a friend's chat (client/core/userdata.cpp); Users:
--                  client/core/usermgr.cpp; SessionService and Events: the slots of
--                  client/core/service/sessionservice.cpp and what its constructor connects;
--                  ChatService: client/core/service/chatservice.cpp
--   Chat           of server/services/ChatServer/: Session: Send, SendOnIO, HandleWrite and Close of
--                  src/CSession.cpp; Validation: include/RequestValidation.h; Redis: src/RedisMgr.cpp
--                  and src/DistLock.cpp; Registry: src/UserMgr.cpp and the session table of
--                  src/CServer.cpp; Cleanup: DealExceptionSession; Server:
--                  on_timer and Stop of src/CServer.cpp; Logic: PostMsgToQue, DealMsg and
--                  Stop of src/LogicSystem.cpp; Callbacks: its table of handlers, with Login and Reply
--                  (LoginHandler, GetBaseInfo, HeartBeatHandler), Friends (the requests for a friend),
--                  Search (SearchInfo), Texts (DealChatTextMsg) and Threads (the lists of chats and of
--                  messages); Notify: src/ChatServiceImpl.cpp; Messages: the messages of the RPC
--                  interface; Database: what src/MysqlDao.cpp asks of MySQL, Dao: its methods, Pool:
--                  its MySqlPool; Protocol and Data: include/const.h and include/data.h; Steps: the
--                  steps of the whole process
--   Status         server/services/StatusServer/src/StatusServiceImpl.cpp
--   Gate           of server/services/GateServer/: Url and Query: ToHex, FromHex, UrlEncode, UrlDecode
--                  and PreParseGetParam of src/HttpConnection.cpp; Routes: its HandleReq, and HandleGet
--                  and HandlePost; Accounts: the handlers of src/LogicSystem.cpp; Dao: src/MysqlDao.cpp
--                  and Hash of src/PasswordHash.cpp; Protocol: include/const.h; Outside: what the
--                  process asks of MySQL, Redis and libsodium; Store: what a view of the accounts
--                  keeps; Table: reg_user of backup/xigu.sql
--   Verify         server/services/VerifyServer/src/VerifyServiceImpl.cpp, with SetExpire of
--                  src/RedisMgr.cpp
--   Examples       concrete runs
--
-- State. A session object, a node, a pool or a TcpMgr is a record with the members that the
-- modelled code uses. A ChatServer process (Chat/Process) is a record of the session objects by
-- their ids, the table of sessions, the map of users, the queue and the world outside; a method is
-- an action that returns the new process. A shared_ptr to a session is its id. World and Json are
-- the parameters for Redis, the clock, UUIDs, the peer servers and jsoncpp; the theorems hold for
-- every choice of them. Database is the parameter for MySQL: a record with one query for each
-- statement, over a state of its own, where a query may throw and a loop over rows may stop early.
-- Outside is the parameter of the GateServer and the VerifyServer, with one operation for each
-- statement, Redis command and call of libsodium. A theorem that needs more of a statement than its
-- type has that as a hypothesis. The data access methods run the statements in the order of the
-- code and take and give back their connections as the code does; an out parameter is a part of the
-- result. A step of Chat/Steps is what one thread of the process does between two others. MySqlPool
-- has the sections of its threads, and Chat/Session/Concurrent the single operations of the threads
-- in Send and Close, as steps in any order, with each callback of the IO thread as one step; in the
-- steps of the process and in the order of the packets a Send is whole. The client runs on one
-- thread: what it does at a signal is an event, and a run is a list of them.
--
-- Bounds and fuel. A short, an int or a size_t that the code does arithmetic on wraps or is tested
-- as in the source: a node's length is at most 32767, pending_sends and connection_count are taken
-- modulo 2 ^ 64, and at most 2 ^ 32 threads are in Send at once. TcpMgr's loop runs on two units of
-- fuel more than the bytes in its buffer, and every round but the last takes a header off the
-- buffer or ends a pending message. The lock's loop runs on one unit more than the milliseconds
-- that it may wait, as each round sleeps one. PreParseGetParam's loop runs on one unit more than
-- the bytes of the query, and each round takes a separator off it. DealMsg's loop after Stop runs
-- on one unit more than the messages in the queue. GetOrCreatePrivateChat makes two attempts, as in
-- the code. The client's loop over the pages of its chats runs on one unit more than the rows, and
-- each page but the last takes a row off them. sendText's outer loop runs on one unit for each
-- UTF-16 unit of the text, and each round takes at least one where a frame of one character is
-- within the limit.
--
-- Not modelled: RedisConPool, the text of the SQL statements, the gRPC clients' pools of stubs, the
-- pools of the GateServer's and the StatusServer's data access, EmailSender, the client's friend
-- and auth services and the handlers of TcpMgr that turn JSON into the arguments of signals, the file
-- of the user's picture, and what is I/O or user interface. A handler, a clean-up and a run of the
-- timer are one action each, so what other threads do while they wait for a user's lock is left out,
-- and so are exceptions of jsoncpp's conversions.
pub mod Prelude
pub mod Wire
pub mod Client
pub mod Chat
pub mod Status
pub mod Gate
pub mod Verify
pub mod Examples
