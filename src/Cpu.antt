-- ===== src/Cpu.antt =====
-- cpu.c: the pipelined processor, made of its components.
pub mod Sound
pub mod Commit
pub mod Fetch
pub mod Flush
pub mod Jumps
pub mod Links
pub mod Retire
pub mod Clock
use fakerv32i.Base.{
  ℕ, zero, suc, ◌+◌, Bool, true, false, List, [], ◌∷◌, Outcome, done, fault, ◌>>=◌,
}
use fakerv32i.Rv32i.{RsType, reservation_station, load_buffer, store_buffer}
use fakerv32i.Reg.{Reg, RegMut, reg_create, reg_mut_create, reg_or_create}
use fakerv32i.Bus.{Bus}
use fakerv32i.Bus.Helper.{bh_create}
use fakerv32i.Predictor.{BranchPredictor, bp_create}
use fakerv32i.RegStore.{RegStore, reg_store_create}
use fakerv32i.Reservation.{CdbMessage, RsPayload, Station, RsUnit}
use fakerv32i.AluUnit.{Alu, AluTask, AluResultBuf}
use fakerv32i.Memory.Pending.{MemUnit, no_message, mem_create}
use fakerv32i.LsQueue.{LsQueue, ls_queue_create}
use fakerv32i.ReorderBuffer.{RobUnit, rob_unit_create}
use fakerv32i.InstUnit.{InstUnit, inst_unit_create}

-- `cpu_t` and the global `hcf`. The clock is its counter: the registers and the callbacks that it calls
-- are those of the components.
pub record Cpu : Type 0 where
  pub clk : ℕ
  pub cdb : Bus CdbMessage
  pub branch_predictor : BranchPredictor
  pub inst_unit : InstUnit
  pub alu : List Alu
  pub ls_queue : LsQueue
  pub mem : MemUnit
  pub reg_store : RegStore
  pub rob : RobUnit
  pub rs : RsUnit
  pub hcf : Bool

-- `bus_create`, for the messages of the common data bus.
unfoldable pub bus_create : Bus CdbMessage
unfolding reg_create reg_mut_create
bus_create = record {
  req = [];
  gnt = reg_create 0;
  fire = reg_mut_create false;
  message = reg_mut_create no_message;
  clear = reg_mut_create 0;
}

abbrev pub no_task : AluTask
no_task = record { op = 0; value1 = 0; value2 = 0; base_msg = no_message }

abbrev pub no_result : AluResultBuf
no_result = record { msg = no_message; busy = false }

abbrev pub no_rs_payload : RsPayload
no_rs_payload = record {
  op_alu = 0;
  op_ls = 0;
  value1 = 0;
  value2 = 0;
  src1 = 0;
  src2 = 0;
  dest = 0;
  addr = 0;
}

unfoldable pub alu_create : Bus CdbMessage → Alu × Bus CdbMessage
unfolding reg_mut_create reg_or_create
alu_create cdb =
    let helper = bh_create no_message cdb in
    (
      (record {
        cdb_helper = helper.0;
        task = reg_mut_create no_task;
        busy = reg_or_create;
        result_buf = reg_mut_create no_result;
      }),
      helper.1,
    )

abbrev pub alu_count : ℕ
alu_count = 2

-- `alu_pool_create`, with the units left to create.
unfoldable pub alu_pool_create : ℕ → Bus CdbMessage → List Alu × Bus CdbMessage
alu_pool_create zero cdb = ([], cdb)
alu_pool_create (suc n) cdb =
    let first = alu_create cdb in let rest = alu_pool_create n first.1 in (first.0 ∷ rest.0, rest.1)

unfoldable pub rs_create : ℕ → RsType → Station
unfolding reg_mut_create
rs_create id rs_type = record {
  id = id;
  rs_type = rs_type;
  busy = reg_mut_create false;
  payload = reg_mut_create no_rs_payload;
}

-- The loops of `cpu_create`: stations of one type, from an id on.
unfoldable pub stations : ℕ → ℕ → RsType → List Station
stations zero i rs_type = []
stations (suc n) i rs_type = rs_create i rs_type ∷ stations n (i + 1) rs_type

-- `cpu_create`; the history of the predictor is what the allocated memory holds.
unfoldable pub cpu_create : ℕ → Outcome Cpu
unfolding reg_mut_create
cpu_create garbage =
    let mem = mem_create bus_create in
    let alus = alu_pool_create alu_count mem.1 in
    do
      rob ← rob_unit_create
      done (record {
        clk = 0;
        cdb = alus.1;
        branch_predictor = bp_create garbage;
        inst_unit = inst_unit_create;
        alu = alus.0;
        ls_queue = ls_queue_create;
        mem = mem.0;
        reg_store = reg_store_create;
        rob = rob;
        rs = record {
          alu_stations = stations 7 1 reservation_station;
          load_buffers = stations 8 8 load_buffer;
          store_buffers = stations 8 16 store_buffer;
          clear = reg_mut_create false;
        };
        hcf = false;
      })
