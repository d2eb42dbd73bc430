-- ===== src/Lib.antt =====
-- The firmware of an emulator of the tracker FMB630: the packets it sends to its server, the
-- commands it obeys, and the control of it over TLS.
--
-- `fmb630_task` connects to the server, sends the identity of the device and waits for the grant.
-- Then it sends a packet whenever the send timer is done, waits for the acknowledgement of it,
-- and obeys the commands of the server meanwhile. `make_record` builds a packet: it moves the
-- device along the scenario of the configuration file and frames some copies of the state
-- `mirror`. `parse_cmd` answers a command; it changes relays, outputs and the mirror. All of them
-- share the variables of main/fmb630.c, and the software timers of main/main.c. The TLS server of
-- main/tls_srv.c changes the settings of the device for a client that knows a hash. At a start
-- the settings come from the flash of the chip, and the configuration from a card or a disk. The
-- main loop starts the other tasks, which get the configuration file from an FTP server, send
-- what is printed to a client, and set the clock.
--
-- Crc models `itcrc`, `Bit16` and `ksum`; Crc/Reference has the bitwise checksum, Crc/Detect what
-- it tells apart. Timer models `get_tmr`, `check_tmr` and `periodic_timer_callback` of
-- main/main.c; the counter wraps round at 2^32. Scenario models the linked list `hdr_rec` as a
-- list, with `add_ones`, `get_ones` and `del_all_ones`. Mirror has the packed structs of
-- main/fmb630.h with their bytes, the variable `mirror` and `init_mirror`. Device is the record
-- of the shared variables. Record models `make_record`, Record/Cases its `switch` on the
-- direction. Command models `parse_cmd`, Command/Words the commands and prepared answers,
-- Command/Relays what is parsed for relays and outputs. Session models a round of the inner loop
-- of `fmb630_task`: Session/Receiver the bytes of the server, Session/Boxes the timers of relays
-- and outputs, and Session/Outer the task around the sessions, with what a session sends without
-- a grant in Session/Grant. Control models `parser_json_str` and `get_json_str` of
-- main/tls_srv.c, and Control/Serve the clients of `tls_task` one after another, with their
-- messages and the answers. Control/Answer has `mk_hash` and the texts of the answers, and
-- Control/Kept what the commands save. Config models `read_cfg` on the lines of the file.
-- Settings models `read_param` and `save_param`, and Settings/Boot all that `app_main` reads with
-- them. Storage models `print_dir`, `rdFile` and `wrFile`, and Storage/Setup how `app_main`
-- mounts its volumes, copies and chooses the configuration. MainLoop is its loop with the wait
-- behind it, and MainLoop/Schedule the loop among the tasks and the requests. Wifi is
-- `event_handler`. Display gives the i2c transactions of main/ssd1306.c, with the font in
-- Display/Font. Ftp is the client of main/ftp_cli.c: Ftp/Line has `readLine`, Ftp/Reply
-- `readResponse` and `sendCommand`, Ftp/Write `writeLine`, Ftp/Requests the commands, Ftp/Port
-- `openPort`, Ftp/Access `accessFtpClient` and what it calls, Ftp/Copy `xfer`, Ftp/Task the task;
-- Ftp/Buf is a connection and Ftp/World the sockets, the memory and the local file. NetLog is the
-- queue of messages and its server in main/tcp_srv.c, NetLog/Fifo the abstract queue. Sntp is the
-- task of main/sntp_cli.c. Frame is the independent description of the protocol's frame. Prelude
-- has shared types, machine words, strings of C, the exclusive or, and the conversion of a 32-bit
-- number to `float`.
--
-- A function that reads the clock, the timer counter, `rand`, the sockets or the allocator takes
-- what it reads as a record (Readings, World, Turn), so that a theorem holds for all readings.
-- The storage of the chip is a parameter of Settings, what cJSON reads one of Control, the
-- conversion of decimal fractions one of Config, and the text of the answer to `getgps`, made of
-- floats and the local time, is one of Command. The digest MD5, the printing of fractions and
-- `fgets` are parameters too. The names of files are compared without case, as the file system
-- does. A created task begins before the delay behind its creation is over. A write behind a
-- buffer, which C leaves undefined, is an outcome of its own. Loops are structural; the printing
-- of a number takes as many steps as the number has units, which is enough since each divides by
-- ten, and the conversion to `float` doubles its unit eight times, which is enough for 32 bits.
-- The loops of the FTP client have as many rounds as there are bytes and answers of the sockets
-- to come, and the time task has 30. The answers of the sockets and of the allocator to the FTP
-- client stand in lists in Ftp/World and Ftp/Buf, the next one first; behind the last one each
-- call fails.
--
-- Not modelled: what is printed, and when the tasks draw; the mutexes, which are waited for
-- without limit; the waiting around a session; mbedtls and its errors; the callbacks of the FTP
-- client, which nothing sets, its transfers without a local file, and the closing of a control
-- connection by `closeFtpClient`; a server that goes on for ever, whom the loops of the FTP
-- client would follow for ever; the SNTP library; the start of the hardware and of the tasks, and
-- what `print_msg` formats, which call the libraries of the chip; `udp_task`, which main/hdr.h
-- switches off.
mod Prelude
pub mod Crc
pub mod Timer
pub mod Scenario
pub mod Mirror
pub mod Frame
pub mod Device
pub mod Record
pub mod Command
pub mod Control
pub mod Config
pub mod Ftp
pub mod NetLog
pub mod Sntp
pub mod MainLoop
pub mod Session
pub mod Settings
pub mod Storage
pub mod Display
pub mod Wifi
mod Tests
