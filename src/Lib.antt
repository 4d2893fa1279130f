-- ===== src/Lib.antt =====
-- A model of camannex, the daemon of a camera's annex devices: coolers and vacuum gauges on serial
-- ports, which it queries in a cycle, and a server to which it reports over the network.
--
-- The parts, with the files that model them:
--
-- * SerialComm (src/SerialComm.cpp, src/SerialComm.h) is a serial port with a circular buffer for each
--   direction: Serial. The record Serial.Serial has its members, and each operation is a function of
--   the same name in snake case. boost::asio is the environment: an asynchronous operation is recorded
--   in `reads` or `writes` until its handler is called, and results of the system are arguments.
--   Serial.Send, Serial.Receive, Serial.Stall and Serial.Race prove what is sent and received.
-- * The search for a flag and the loops over the buffers, which SerialComm and TCPClient write in the
--   same way: Search and Buffer. boost::circular_buffer is the record Buffer.CircularBuffer, a parameter
--   with its documented operations; Buffer.ListBuffer fills it with a list.
-- * The frames of the two devices (encode_data and decode_data of src/CoolerCtl.cpp and
--   src/VacuumCtl.cpp, decode_uint8 of src/ControllerBase.cpp, LRC and Checksum of src/AMath.h): Frame.
-- * ControllerBase (src/ControllerBase.cpp, src/ControllerBase.h): Controller. Controller.Link has the
--   members that AnnexControl sets, Controller.Line the port, the directives and one round of each
--   thread, and Controller.Virtual the virtual functions, the interface through which a controller
--   reaches its device. Controller.Rounds proves what a cycle of queries and replies does.
-- * CoolerCtl and VacuumCtl (src/CoolerCtl.cpp, src/VacuumCtl.cpp and their headers): Device. Each fills
--   Controller.Virtual. A `double` is a parameter, Device.Float.
-- * MessageQueue (src/MessageQueue.cpp, src/MessageQueue.h): MessageQueue. The queue of
--   boost::interprocess is the record PriorityQueue, with the order of its documentation.
-- * TCPClient (src/tcpasio.cpp, src/tcpasio.h): Tcp, built like Serial on Search and Buffer. Tcp.Run has
--   the runs of a client from its making on, Tcp.Server the acceptor of TCPServer.
-- * AsciiProtocol (src/AsciiProtocol.cpp, src/AsciiProtocol.h, src/AsciiProtocolBase.h): Protocol. The
--   functions of boost on strings are the parameter Protocol.Boost. Protocol.Slots is about the ten
--   stores of 1024 bytes for output, Protocol.Pairs and Protocol.Lines about reading a line back.
-- * DataTransfer (src/DataTransfer.cpp, src/DataTransfer.h): Transfer. Transfer.Upload has uploadDatas,
--   Transfer.Reply the callback that collects a reply, Transfer.Send and Transfer.Files the functions
--   that fill a form, a multimap of std. libcurl is the environment: the record
--   Transfer.Upload.Answer says which pieces it delivers and which codes it returns. Device.Cooler.Outward
--   and Device.Vacuum.Outward report the records of a controller to the database and the network.
-- * NTPClient (src/NTPClient.cpp, src/NTPClient.h): Ntp. Ntp.Client has its calls and one round of its
--   thread, Ntp.Validity any sequence of them. The network and the clock are the record Answers.
-- * The routines of src/AMath.cpp and src/AMath.h: Numeric, with `double` the parameter Base.Real and the
--   functions of <math.h> the parameter Libm. Numeric.Endian swaps bytes, Numeric.Matrix transposes and
--   multiplies and Numeric.Matrix.Invert inverts and solves, Numeric.Fit is GaussFit2D,
--   Numeric.Interpolation and Numeric.Spline interpolate, Numeric.Select is k_select, Numeric.Convolve
--   has the classes gauss2_convolve and gauss_std_convolve, Numeric.Sphere the coordinates on the sphere,
--   Numeric.Normal the error function and the correlation, and Numeric.Magnitude the units of light. An
--   access outside an array is `none`, but MatTrans, MatRealMult, splint, Lagrange and SwapEndian read a
--   default there; Numeric.Loop has the rules by which a loop over arrays returns.
-- * GLog (src/GLog.cpp, src/GLog.h): Log, with the file that each line goes to.
-- * param_config (src/parameter.h): Config, over boost's property tree as a parameter.
-- * AnnexControl (src/AnnexControl.cpp, src/AnnexControl.h): Annex. Annex.Messages has the messages that
--   it registers and posts, Annex.Network its ports, its session and its handlers, and Annex.Service
--   StartService and StopService.
-- * MakeItDaemon, isProcSingleton (src/daemon.cpp) and main (src/camannex.cpp): Daemon. The results of
--   the system calls are the arguments Machine and PidFile. Daemon.Exclusion has any number of
--   processes, Daemon.Start what main does, with the Service of Annex.
--
-- They interact so: AnnexControl makes a controller for each port of its configuration and is told by
-- callbacks, through MessageQueue, when a port or the server is lost. A controller queues directives
-- and writes the first to its SerialComm; what arrives there calls serial_read, which cuts out a frame,
-- has the device decode it and wakes the thread that sends the next directive.
--
-- Conventions. Numbers are natural numbers, and a byte is a number below 256, with `% 256` where the
-- code stores to a byte; an `int` that may be negative is an integer of Base.Int. What C++ leaves
-- undefined, as taking the front of an empty list, is `none`; so is a wait that does not end. Loops are
-- recursion on the list they walk, or on fuel: the scan of Search has one round for each byte of the
-- buffer and one more, and the decoding loop one for each byte of the frame, which moves on by two. The
-- thread of MessageQueue runs on fuel, and its theorem says which fuel is enough. The scans and rounds
-- of k_select have as many rounds as the array has elements, and its theorem says that this is enough;
-- the halving of reverse_erf takes its fuel as an argument, since it may not end.
--
-- Not modelled: TestSwapEndian of src/AMath.cpp, which asks for the byte order of the machine;
-- the overflow of an int that counts elements, as the sum of start and length in
-- SerialComm::Read (that of TCPClient::Read is taken to wrap around); src/IOServiceKeep.cpp,
-- which keeps boost's service running on a thread; the descriptors of files, and the signals
-- that end main; the parts of uploadDatas that are compiled only with DEBUG; and time, except
-- where thread_respond, thread_heartbeat and NTPClient keep it. Locks are not modelled as such:
-- each function is a step, and handle_write is two, since it gives up its lock half way.
pub mod Base
pub mod Frame
pub mod Search
pub mod Buffer
pub mod Serial
pub mod MessageQueue
pub mod Ntp
pub mod Numeric
pub mod Controller
pub mod Device
pub mod Log
pub mod Tcp
pub mod Transfer
pub mod Protocol
pub mod Config
pub mod Annex
pub mod Daemon
