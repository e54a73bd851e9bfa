-- ===== src/Lib.antt =====
-- A model of the lane controller IMachine_HB_F_1, which takes commands from the toll lane's robot
-- and from its operator over two sockets and drives a barrier, a traffic light, a warning light, a
-- display and a loudspeaker.
--
-- A received frame goes from the receiving loop to `CommunicationAnalysis`, which asks whether the
-- client is in charge (the manual switch decides), takes the frame apart in `Analysis`, and
-- answers with `CommunicationSend`. The handlers switch digital lines, put messages in the task
-- list of the display, or call the speech engine. The display's own thread empties the task list.
-- At the start the configuration file is read, and `ReadCfg` and `Init` decide from it whether the
-- program comes to serve its clients; a thread for each socket accepts them. What the parts log
-- goes through a buffer to the log thread, which writes it to files.
--
-- Which file models what:
-- - Checksum.antt: `BCCDataCheck` of src/IMachine.cpp. Checksum/Fold.antt and
--   Checksum/Detection.antt prove what it accepts, over the laws of exclusive or in Bits.antt and
--   Bits/Step.antt.
-- - Klist.antt: the task list, src/kernel_list.cpp and include/kernel_list.h. Klist/Mailbox.antt
--   reads it as a place for each line; Klist/Thread.antt is `DisplayThread` of src/QYLED.cpp, one
--   step for each critical section, interleaved with the callers of `ShowAdd`;
--   Klist/Refinement.antt and Klist/Capacity.antt hold the theorems.
-- - Led.antt and Led/Packets.antt: the operations and packets of src/QYLED.cpp. Led/Layout.antt
--   and Led/Texts.antt say what a well laid out packet is; Led/Queue.antt says what an operation
--   leaves in the task list; Led/Relay.antt is about `DisplaySetRelay`.
-- - Gpio.antt: the digital lines of src/IODevice.cpp; Gpio/Open.antt: how they are opened and
--   closed.
-- - Machine.antt: the members of `IMachine` (include/IMachine.h) that commands use, and
--   `TcpServer` (include/TcpServer.h) as far as it is written to. Machine/Handlers.antt has
--   `BalusTrade`, `Balustrade_Thread`, `DisplayVoice`, `DisplayControl`, `TrafficControl` and
--   `FlashLightControl`; Machine/Words.antt the phrases of `DisplayVoice`; Machine/Dispatch.antt
--   `Analysis` and `CommunicationAnalysis`; Machine/Send.antt `CommunicationSend` and
--   `TcpServer::WriteByte`, all of src/IMachine.cpp but the last, which is in src/TcpServer.cpp.
--   Machine/Interlock.antt, Machine/Screen.antt, Machine/Effects.antt, Machine/Commands.antt,
--   Machine/Flash.antt, Machine/Voice.antt and Machine/Frames.antt hold the theorems.
-- - Framer.antt: `ReceiveCmd1` and `ReceiveCmd2` of src/IMachine.cpp, from a chunk of bytes to the
--   frames in it. Framer/Passes.antt, Framer/Stream.antt, Framer/Pieces.antt,
--   Framer/Termination.antt and Framer/Checked.antt hold the lemmas and theorems;
--   Machine/Serve.antt hands the frames on.
-- - Machine/Coils.antt: `VehicleThread` and `HeartThread`; Machine/Coils/Reports.antt and
--   Machine/Coils/Addressee.antt say what is reported and to whom. Machine/Idle.antt:
--   `TimerThread`.
-- - Config.antt and Config/Lookup.antt: the configuration in memory, of src/Get_Inifiles.cpp.
--   Config/Text.antt and Config/Load.antt: its string helpers, `Load` and `SaveAs`, over the bytes
--   of the file; Config/Values.antt: the Boolean values and `GetValues`; Config/Comments.antt and
--   Config/RightComments.antt: `GetComment` and `SetComment`, and the same for comments on the
--   right; Config/Numbers.antt: `SetIntValue` with `GetIntValue` of Startup.antt.
--   Config/Strip.antt, Config/Lines.antt, Config/Plain.antt, Config/Items.antt, Config/Saved.antt,
--   Config/RoundTrip.antt and Config/Names.antt hold the lemmas and theorems. Strings.antt: the
--   equality of strings.
-- - Log.antt: the buffer and the lines of src/Log_Message.cpp (`try_append`, `log_try_append`,
--   `hex_try_append`); Log/File.antt: `write_to_file` and the turn of the log thread.
--   Log/Clock.antt: `utc_timer`. Log/Folders.antt: the search for old files; Log/Paths.antt:
--   `GetModuleFileName` and `createdirectory`. Log/Cells.antt, Log/Line.antt, Log/Spool.antt,
--   Log/Rotation.antt, Log/Folders/Found.antt, Log/Folders/Sweep.antt, Log/Names.antt,
--   Log/Made.antt and Log/Blocks.antt hold the lemmas and theorems.
-- - Speech.antt: `text_to_speech` of src/tts.cpp; Speech/Playback.antt: `speech_playback`, its
--   thread and `compound`. Speech/Wave.antt, Speech/Sessions.antt and Speech/Spoken.antt hold the
--   theorems.
-- - Charset/Base64.antt and Charset/Conversion.antt: src/convert.c. Charset/Digits.antt,
--   Charset/RoundTrip.antt and Charset/Bounds.antt hold the lemmas and theorems.
-- - Server.antt: `Accept` and `Close` of src/TcpServer.cpp, interleaved store by store with the
--   receiving loop. Server/Sound.antt, Server/Pieces.antt and Server/Descriptors.antt hold the
--   lemmas and the theorem. Server/Listen.antt: `Open` and `ReadByte`.
-- - Startup.antt: `main` of src/main.cpp, `ReadCfg`, `Init` and `Start` of src/IMachine.cpp and
--   `FB_Open` of src/QYLED.cpp, as far as they decide how the start ends. Startup/Serving.antt
--   holds the theorem.
-- - Channels/Tcp.antt, Channels/Uart.antt, Channels/Udp.antt and Channels/Manage.antt:
--   src/Tcp.cpp, src/Uart.cpp, src/Udp.cpp and `CreatComm` of src/CommManage.cpp, with theorems;
--   Channels/Retries.antt holds those of the TCP client. Channels/Display.antt: `DisplayInit` and
--   `DisplayExit` of src/QYLED.cpp.
-- - Time.antt: `GetUnixTime` and `GetUnixTime8` of src/GetTime.cpp. Klist/Insert.antt: the
--   operations of the task list that the program does not call.
-- - Prelude.antt and its children: Boolean tests, lists and integers over the native numbers.
-- - Tests.antt and its children: runs on concrete inputs, and an instance of each theorem.
--
-- Conventions. A byte is a number below 256, an array a list of bytes; a byte past the end of a
-- list reads as 0. An output is a `Gpio` object with what was last written through it; by the
-- defaults of `ReadCfg` two pairs of them share a pin, and where they do, a line has what was last
-- written through either object. A write past the end of an array makes the result `none` or
-- `fault`; `record` updates stand for assignments. What the environment decides is a value:
-- whether a line accepts writes, whether the speech engine throws, the clock, whether `stat`,
-- `remove` and `Open` of a server succeed, and what the variable `Type` of `CommunicationAnalysis`
-- holds unassigned; the use of an unassigned `Command_Len` is a `fault`. The loops of the handlers
-- are structural recursions: the rows of a screen and the bytes of a voice command bound them. Two
-- loops run on fuel. For the loop of `goto`s in the receiving loops a turn has as much as the
-- bytes held and one, and each pass leaves fewer bytes to search than the one before. The loop of
-- `write_to_file` over full files has as much as there are files of the day that may be full, and
-- one.
--
-- Not modelled: pauses, and the socket, serial and sysfs calls, whose outcomes are values of the
-- environment; the file system, whose answers are a parameter of the log and of the speech, while
-- a configuration file is the list of its bytes; the speech SDK and iconv, which are not in the
-- repository and are parameters; how printf converts what is logged; and the construction of the
-- devices, but for the opening of a digital line. What a handler logs is left out of its model.
-- The loops of the threads are taken one pass at a time, and the commands of the two sockets one
-- at a time: the source lets their threads overlap, and two barrier commands at once race on the
-- thread object. So the test of `TimerThread` and its locked part are a pass into which no command
-- comes, and the search of `Node_Change` and its insertion of a line that is missing are one step.
pub mod Prelude
pub mod Bits
pub mod Channels
pub mod Charset
pub mod Checksum
pub mod Strings
pub mod Time
pub mod Config
pub mod Klist
pub mod Led
pub mod Gpio
pub mod Framer
pub mod Log
pub mod Machine
pub mod Server
pub mod Speech
pub mod Startup
pub mod Tests
