-- ===== src/Lib.antt =====
-- raspdif sends PCM audio as S/PDIF from a Raspberry Pi: it encodes samples as 64-bit biphase-mark
-- code words, writes these into a ring of three buffers, and lets DMA feed the buffers to the PCM
-- serialiser. The program is in source/ and include/.
--
-- The parts and their files: Spdif models source/spdif.c and include/spdif.h: `build_subframe` is
-- spdif_build_subframe, `encode_biphase_mark` is spdif_encode_biphase_mark; bit fields are the
-- fields of a record, with `raw` the other member of the union. Spdif/Line says what the line code
-- and a receiver are, bit by bit and independently of the encoder; Spdif/Encode and Spdif/Build
-- compare the two. Spdif/ChannelStatus is spdif_populate_channel_status. `__rbit` and
-- `__builtin_popcount` are functions on binary digits (Bits). Samples models raspdif_parse_sample
-- of source/main.c. Buffers models raspdif_buffer_samples with its static counters as `Position`;
-- a call gets the state and returns the new one. ControlBlocks models
-- raspdif_generate_dma_control_blocks: addresses are 32-bit bus addresses, control blocks are
-- words. Play models raspdif_fill_buffers and the two loops of main: `preload`, then `transmit`,
-- whose body is `round`; `Player` holds the variables, and its field `trace` records the actions
-- for the statements on their order. Play calls Buffers, Samples and ControlBlocks as the code
-- does. Mailbox models source/mailbox.c and Memory the allocation and release in source/memory.c;
-- Host is the way of calls that may end the program through a fatal log line. Clock, Dma and Pcm
-- model source/bcm283x/bcm283x_clock.c, bcm283x_dma.c and bcm283x_pcm.c beside it over the
-- register bus of Registers. Gpio models source/bcm283x/bcm283x_gpio.c in the build with 32 pins;
-- Gpio/Spec says what a configuration is to do. Log models the levels of source/log.c. Arguments
-- models parse_opt and the defaults of main; Arguments/Last says what a command line means.
-- Program is the state of the whole machine with the static variables, and the four ways a call
-- can end: it is done, the program exits, an assertion fails, or a loop still waits. Setup models
-- bcm283x_init of source/bcm283x/bcm283x.c and the mappings of source/memory.c over that state;
-- Setup/Raspdif is raspdif_init and raspdif_shutdown; Setup/Working says what is asked of the
-- hardware and the firmware: the busy bit falls after a clock was stopped, PCM echoes SYNC while
-- its clock is enabled, and there is room for one control structure. Live models the loops of main
-- and raspdif_fill_buffers a second time, as programs over that state that ask for each reading in
-- its turn, with microsleep of include/utils.h; Live/Made ties the recorded actions and reads to
-- the calls, Live/Rounds and Live/Follows compare these loops with Play, and Live/Progress and
-- Live/Ends are about when they end. Main is main from the arguments to the shutdown, with the
-- signal handler; an assertion that fails is handled as SIGABRT. Main/Signals lets a signal come
-- after any accesses of the device while main plays, and Main/Interrupted after any round of main.
-- Prelude has the shared names, lists, tests and machine words, and Examples runs the definitions
-- and every result that has hypotheses on concrete inputs.
--
-- What is outside the program is a parameter: a list of what fread gives (`Read`), a list of what
-- each round meets (`Tick`: the DMA register, the read, the readings and random numbers of an
-- underrun), the device /dev/vcio (`Vcio`), /dev/mem (`Mapping`), the arithmetic of double
-- (`Doubles`), strtod, the calls of parse_opt that argp makes, the registers (`Bus`), and for main
-- the calls of the C library and the system (`Calls`). Where a list ends, the run is still going
-- on.
--
-- Integers are native naturals with the wrap of their width written out; a signed 32-bit number is
-- its pattern. The fuel of `fill_buffer` is the size of a buffer, which is enough, since a buffer
-- is full at the next multiple of it; the fuel of `wait_idle` and `wait_sync` is a bound on the
-- readings of the bit they wait for; the fuel 32 of `configure_from` is enough for a mask of 32
-- bits. In Live, fuel of 6 is enough for a fill, since DMA moves on during a sleep, and rounds
-- above twice a rank of the device, such as the bytes left in the file, are enough for the
-- transmission. The call of raspdif_buffer_samples in a fill draws two random numbers, with
-- keep-alive only, in an order that C leaves open; here the left sample is drawn first.
--
-- Not modelled: a signal in the middle of the initialisation, the text of log lines and, but for
-- the line of the handler, those that are not fatal, and what the file and the signals are to the
-- system. The barriers WMB and RMB have no effect on one processor that meets the registers in
-- order. Pointers have 32 bits.
pub mod Log
pub mod Arguments
pub mod Program
pub mod Setup
pub mod Live
pub mod Main
pub mod Prelude
pub mod Bits
pub mod Spdif
pub mod Samples
pub mod Registers
pub mod Gpio
pub mod Pcm
pub mod Dma
pub mod Clock
pub mod Host
pub mod Mailbox
pub mod Memory
pub mod ControlBlocks
pub mod Play
pub mod Examples
pub mod Buffers
