-- ===== src/Lib.antt =====
-- fakerv32i, a simulator of RV32I processors in C: a sequential one (fakecpu.c) and a pipelined one with
-- out-of-order execution (cpu.c).
--
-- Both share the decoder (inst.c), the arithmetic (alu-ops.c, rvmath.c) and the memory (memory.c). The
-- pipelined one is made of registers with a current and a next value (reg.c) that a clock exchanges
-- (clk.c); of them are built the ring queue (queue.c), the register store with its renaming
-- (reg-store.c), the common data bus (bus.c) on which results travel to the waiting reservation stations
-- (reservation-station.c), and the load/store queue, the reorder buffer and the instruction unit. A
-- branch predictor (branch-predictor.c) guesses the next address.
--
-- Which file models what:
--   Base              tests, lists, results of fallible code, integers and bit operations of the model
--   Word, Rv32i       the types and enumerations of rv32i.h and inst.h
--   Rvmath            rvmath.c: sign_extend, ls_size, signed_add
--   AluOps            alu-ops.c: alu_execute; Meaning compares it with the manual
--   Isa               the instructions of the RV32I manual, their meaning and (Encoding) their words,
--                     written from the manual and not from the code
--   Inst              inst.c: inst_decode and the classes of an instruction (inst_type, inst_rob_op,
--                     inst_ls_op, inst_alu_op); Fields, Decode and RoundTrip compare it with the words
--   Memory            memory.c: the accesses to the array of bytes (mem_get_sz, mem_set_sz; Access), the
--                     search for a free request (Requests), the pending requests and their tick
--                     (Pending), with Completion about one request on its own, Pending/Content about the
--                     bytes and Pending/Flags about the flags during a clear
--   FakeCpu           fakecpu.c: fakecpu_tick, and the loop of main.c around it; Machine, Step and Run
--                     compare them with the manual, Overshift is about the shifts with a large count,
--                     and Frame about what a tick leaves alone
--   Reg               reg.c: the registers and the lock busy_wait_t; Cycle and Lock run them
--   Queue             queue.c: the ring; Window, Cycle and Refine compare it with a list, Visit is
--                     about the loop queue_foreach and Bounds about the pointers
--   RegStore          reg-store.c; Rename runs a register through its cycles, and Slots is about the
--                     number of registers
--   Predictor         branch-predictor.c; Learning states what it keeps and learns
--   Bus               bus.c: the arbiter, the delivery and the clear, with Grant and Delivery about them,
--                     and (Helper) the sender with its two buffers, with Acquire about it
--   AluUnit           alu.c: the arithmetic unit of the pipeline, with Delivery about the way of a
--                     task through it
--   LsQueue           ls-queue.c: the load/store queue with its lock, and Ring about its pointers
--   ReorderBuffer     reorder-buffer.c, but for the commit; Shape is about its ring
--   Reservation       reservation-station.c: the stations, the capture of a result (Capture), the test
--                     for overlapping accesses (Overlap) and the issue of work (Issue), with Loads
--                     about the loads that pass a store, and Types and Issue/Shape about the types of
--                     the stations
--   InstUnit          inst-unit.c: the program counter and its forced change; Dispatch is inst-dispatch.c,
--                     with Operands about the operands it finds and Kept about what it leaves alone
--   Cpu               cpu.c: the record of all components; Commit is the commit of reorder-buffer.c, Fetch
--                     the tick of inst-unit.c, and Clock the tick of clk.c with the loop of main.c. Jumps,
--                     Links and Flush are about a branch, a link register and a misprediction on their
--                     way through these components, Retire about one instruction from its dispatch to
--                     its commit, with Effects and Stores about what the commit writes, and
--                     Whole about both together. Sound is a well-formed record, with Commit/Shape,
--                     Fetch/Shape, Clock/Invariant and Clock/Reach about the steps between such records
--   Io                io.c: the reader of the program image and the printed result; Image is about the
--                     text of an image, and Range about the bytes that the reader leaves
--   Tests             concrete runs
--
-- A definition has the name of the C function, without the underscore that marks a static one, and takes
-- and returns the state that the C function changes behind a pointer. A `word_t` is a natural number with
-- its wrap-around written out, a `signed_word_t` an integer read off the bits. A failed `assert` is
-- `fault assertion`, an access outside an array or a shift by 32 or more is `fault undefined`. A C switch
-- is a chain of tests on the number. A register of `size` bytes is a register of a type. The
-- writes through a pointer that `reg_mut_write` returns are a function on the next value. An update of a
-- clock (the mutable registers, then the computed ones, then the callbacks) is a function on the state.
--
-- In the pipelined processor the pointers from one component to another are fields of one record, Cpu, and
-- a function that follows such a pointer takes and returns the component it reaches, or the record. A
-- pointer to an entry of the reorder buffer is its place in the ring. A callback with its argument, which
-- a request to memory carries, is the lock of the load/store queue, the only one that the program passes.
-- `cpu_tick` first ticks the registers, as clk.c does, and then runs the callbacks in the order in which
-- cpu_create registers them; the bus calls its listeners in the order of their registration too.
--
-- Loops run over lists or over the 32 registers and end by their structure. The loop queue_foreach runs
-- over the places of a ring and has the capacity as its fuel (`visited`); `cpu_run` and `fakecpu_run`, the
-- loop of main for either processor, have a number of rounds as their fuel, since a program need not halt.
-- The array of memory is a function on addresses with its size as a bound; the table of the predictor is
-- one with its two bounds.
--
-- The reader of the image takes the conversion of scanf as a parameter, since that is the C library's, and
-- has a number of rounds as its fuel; one for each octet and section is enough.
--
-- Not modelled: allocation and release, the debugging output (dump.c, lib/log.h), the statistics of main.c,
-- the optional random orders of callbacks, and the container code in lib.
pub mod Base
pub mod Word
pub mod Rv32i
pub mod Rvmath
pub mod Isa
pub mod AluOps
pub mod Inst
pub mod Memory
pub mod FakeCpu
pub mod Reg
pub mod Queue
pub mod Predictor
pub mod RegStore
pub mod Bus
pub mod Reservation
pub mod AluUnit
pub mod LsQueue
pub mod ReorderBuffer
pub mod InstUnit
pub mod Cpu
pub mod Io
mod Tests
