-- ===== src/Disasm/Text.antt =====
-- The texts that disassembler/include/disassembler.hh puts together: numbers and offsets, and the names
-- of operations in common/encoding.hh. A text is the list of its bytes.
use anc.Isa.Opcode.{Op, of_code}
use anc.Base.{
  ℕ, zero, suc, ◌+◌, ◌-◌, ◌/◌, ◌%◌, none, some, List, [], ◌∷◌, ◌++◌, ltb, if◌then◌else◌, codes,
  length,
}

abbrev digit : ℕ → ℕ
digit d = if ltb d 10 then 48 + d else 87 + d

-- An unsigned number of 32 bits has at most 8 digits.
unfoldable pub hex_digits : ℕ → ℕ → List ℕ
hex_digits zero value = []
hex_digits (suc n) value =
    let high = hex_digits n (value / 16) in
    let low = digit (value % 16) ∷ [] in if ltb value 16 then low else high ++ low

abbrev zeros : ℕ → List ℕ
zeros zero = []
zeros (suc n) = 48 ∷ zeros n

-- `setfill('0') << setw(width)`.
unfoldable pub hex : ℕ → ℕ → List ℕ
unfolding hex_digits
hex value width =
    let digits = hex_digits 8 value in codes "0x" ++ zeros (width - length digits) ++ digits

-- The byte is a signed number.
unfoldable pub offset : ℕ → List ℕ
unfolding hex
offset value =
    if ltb 127 value then codes "- " ++ hex (256 - value) 2 else codes "+ " ++ hex value 2

-- The name in the table of operations.
unfoldable pub name : Op → List ℕ
name Op.kill = codes "kill"
name Op.reset = codes "reset"
name Op.cpuid = codes "cpuid"
name Op.syscall = codes "syscall"
name Op.call = codes "call"
name Op.ret = codes "ret"
name Op.push = codes "push"
name Op.pop = codes "pop"
name Op.phpc = codes "phpc"
name Op.popc = codes "popc"
name Op.phsr = codes "phsr"
name Op.posr = codes "posr"
name Op.phsp = codes "phsp"
name Op.posp = codes "posp"
name Op.phbp = codes "phbp"
name Op.pobp = codes "pobp"
name Op.seti = codes "seti"
name Op.sett = codes "sett"
name Op.sets = codes "sets"
name Op.clri = codes "clri"
name Op.clrt = codes "clrt"
name Op.clrs = codes "clrs"
name Op.clrn = codes "clrn"
name Op.clro = codes "clro"
name Op.clrc = codes "clrc"
name Op.ireq = codes "ireq"
name Op.req = codes "req"
name Op.write = codes "write"
name Op.hreq = codes "hreq"
name Op.hwrite = codes "hwrite"
name Op.read = codes "read"
name Op.pareq = codes "pareq"
name Op.cmp = codes "cmp"
name Op.careq = codes "careq"
name Op.jmp = codes "jmp"
name Op.jeq = codes "jeq"
name Op.jne = codes "jne"
name Op.jge = codes "jge"
name Op.jgr = codes "jgr"
name Op.jle = codes "jle"
name Op.jls = codes "jls"
name Op.jo = codes "jo"
name Op.jno = codes "jno"
name Op.jn = codes "jn"
name Op.jnn = codes "jnn"
name Op.inc = codes "inc"
name Op.dec = codes "dec"
name Op.add = codes "add"
name Op.sub = codes "sub"
name Op.neg = codes "neg"
name Op.and = codes "and"
name Op.or = codes "or"
name Op.xor = codes "xor"
name Op.not = codes "not"
name Op.sign = codes "sign"
name Op.shl = codes "shl"
name Op.shr = codes "shr"
name Op.par = codes "par"
name Op.load = codes "load"
name Op.store = codes "store"
name Op.tran = codes "tran"
name Op.swap = codes "swap"
name Op.ldsr = codes "ldsr"
name Op.ldsp = codes "ldsp"
name Op.ldbp = codes "ldbp"
name Op.stsr = codes "stsr"
name Op.stsp = codes "stsp"
name Op.stbp = codes "stbp"
name Op.trsr = codes "trsr"
name Op.trsp = codes "trsp"
name Op.trbp = codes "trbp"
name Op.sili = codes "sili"
name Op.sihi = codes "sihi"
name Op.seli = codes "seli"
name Op.sehi = codes "sehi"
name Op.sbp = codes "sbp"
name Op.stp = codes "stp"
name Op.tili = codes "tili"
name Op.tihi = codes "tihi"
name Op.teli = codes "teli"
name Op.tehi = codes "tehi"
name Op.tbp = codes "tbp"
name Op.ttp = codes "ttp"
name Op.lcpid = codes "lcpid"
name Op.tcpid = codes "tcpid"
name Op.time = codes "time"
name Op.tstart = codes "tstart"
name Op.tstop = codes "tstop"
name Op.trt = codes "trt"

-- A byte that is no operation has the empty name.
unfoldable pub name_of : ℕ → List ℕ
unfolding name of_code
name_of op = elim (of_code op) [ none ↦ [] | some o ↦ name o ]
