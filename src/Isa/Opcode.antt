-- ===== src/Isa/Opcode.antt =====
-- The opcode table of common/encoding.hh: `opcode`, its names, addressing families and privilege.
use anc.Base.{ℕ, Bool, true, false, Option, none, some, List, [], ◌∷◌, get_elem?}

-- One constructor for each `case` of `opcode`, by its mnemonic.
pub data Op : Type 0 where
  kill reset cpuid syscall call ret push pop phpc popc phsr posr phsp posp phbp pobp seti : Op
  sett sets clri clrt clrs clrn clro clrc ireq req write hreq hwrite read pareq cmp careq : Op
  jmp jeq jne jge jgr jle jls jo jno jn jnn inc dec add sub neg and or xor not sign shl shr : Op
  par load store tran swap ldsr ldsp ldbp stsr stsp stbp trsr trsp trbp sili sihi seli sehi : Op
  sbp stp tili tihi teli tehi tbp ttp lcpid tcpid time tstart tstop trt : Op

-- The byte that selects the operation.
unfoldable pub code : Op → ℕ
code Op.kill = 0x00
code Op.reset = 0x01
code Op.cpuid = 0x02
code Op.syscall = 0x03
code Op.call = 0x04
code Op.ret = 0x05
code Op.push = 0x06
code Op.pop = 0x07
code Op.phpc = 0x08
code Op.popc = 0x09
code Op.phsr = 0x0a
code Op.posr = 0x0b
code Op.phsp = 0x0c
code Op.posp = 0x0d
code Op.phbp = 0x0e
code Op.pobp = 0x0f
code Op.seti = 0x10
code Op.sett = 0x11
code Op.sets = 0x12
code Op.clri = 0x13
code Op.clrt = 0x14
code Op.clrs = 0x15
code Op.clrn = 0x16
code Op.clro = 0x17
code Op.clrc = 0x18
code Op.ireq = 0x19
code Op.req = 0x1a
code Op.write = 0x1b
code Op.hreq = 0x1c
code Op.hwrite = 0x1d
code Op.read = 0x1e
code Op.pareq = 0x1f
code Op.cmp = 0x20
code Op.careq = 0x21
code Op.jmp = 0x22
code Op.jeq = 0x23
code Op.jne = 0x24
code Op.jge = 0x25
code Op.jgr = 0x26
code Op.jle = 0x27
code Op.jls = 0x28
code Op.jo = 0x29
code Op.jno = 0x2a
code Op.jn = 0x2b
code Op.jnn = 0x2c
code Op.inc = 0x2d
code Op.dec = 0x2e
code Op.add = 0x2f
code Op.sub = 0x30
code Op.neg = 0x31
code Op.and = 0x32
code Op.or = 0x33
code Op.xor = 0x34
code Op.not = 0x35
code Op.sign = 0x36
code Op.shl = 0x37
code Op.shr = 0x38
code Op.par = 0x39
code Op.load = 0x3a
code Op.store = 0x3b
code Op.tran = 0x3c
code Op.swap = 0x3d
code Op.ldsr = 0x3e
code Op.ldsp = 0x3f
code Op.ldbp = 0x40
code Op.stsr = 0x41
code Op.stsp = 0x42
code Op.stbp = 0x43
code Op.trsr = 0x44
code Op.trsp = 0x45
code Op.trbp = 0x46
code Op.sili = 0x50
code Op.sihi = 0x51
code Op.seli = 0x52
code Op.sehi = 0x53
code Op.sbp = 0x54
code Op.stp = 0x55
code Op.tili = 0x56
code Op.tihi = 0x57
code Op.teli = 0x58
code Op.tehi = 0x59
code Op.tbp = 0x5a
code Op.ttp = 0x5b
code Op.lcpid = 0x5c
code Op.tcpid = 0x5d
code Op.time = 0x60
code Op.tstart = 0x61
code Op.tstop = 0x62
code Op.trt = 0x63

-- The operation of a byte; `none` is the `default` of the switch.
abbrev op_table : List (Option Op)
op_table =
    some Op.kill
    ∷ some Op.reset
    ∷ some Op.cpuid
    ∷ some Op.syscall
    ∷ some Op.call
    ∷ some Op.ret
    ∷ some Op.push
    ∷ some Op.pop
    ∷ some Op.phpc
    ∷ some Op.popc
    ∷ some Op.phsr
    ∷ some Op.posr
    ∷ some Op.phsp
    ∷ some Op.posp
    ∷ some Op.phbp
    ∷ some Op.pobp
    ∷ some Op.seti
    ∷ some Op.sett
    ∷ some Op.sets
    ∷ some Op.clri
    ∷ some Op.clrt
    ∷ some Op.clrs
    ∷ some Op.clrn
    ∷ some Op.clro
    ∷ some Op.clrc
    ∷ some Op.ireq
    ∷ some Op.req
    ∷ some Op.write
    ∷ some Op.hreq
    ∷ some Op.hwrite
    ∷ some Op.read
    ∷ some Op.pareq
    ∷ some Op.cmp
    ∷ some Op.careq
    ∷ some Op.jmp
    ∷ some Op.jeq
    ∷ some Op.jne
    ∷ some Op.jge
    ∷ some Op.jgr
    ∷ some Op.jle
    ∷ some Op.jls
    ∷ some Op.jo
    ∷ some Op.jno
    ∷ some Op.jn
    ∷ some Op.jnn
    ∷ some Op.inc
    ∷ some Op.dec
    ∷ some Op.add
    ∷ some Op.sub
    ∷ some Op.neg
    ∷ some Op.and
    ∷ some Op.or
    ∷ some Op.xor
    ∷ some Op.not
    ∷ some Op.sign
    ∷ some Op.shl
    ∷ some Op.shr
    ∷ some Op.par
    ∷ some Op.load
    ∷ some Op.store
    ∷ some Op.tran
    ∷ some Op.swap
    ∷ some Op.ldsr
    ∷ some Op.ldsp
    ∷ some Op.ldbp
    ∷ some Op.stsr
    ∷ some Op.stsp
    ∷ some Op.stbp
    ∷ some Op.trsr
    ∷ some Op.trsp
    ∷ some Op.trbp
    ∷ none
    ∷ none
    ∷ none
    ∷ none
    ∷ none
    ∷ none
    ∷ none
    ∷ none
    ∷ none
    ∷ some Op.sili
    ∷ some Op.sihi
    ∷ some Op.seli
    ∷ some Op.sehi
    ∷ some Op.sbp
    ∷ some Op.stp
    ∷ some Op.tili
    ∷ some Op.tihi
    ∷ some Op.teli
    ∷ some Op.tehi
    ∷ some Op.tbp
    ∷ some Op.ttp
    ∷ some Op.lcpid
    ∷ some Op.tcpid
    ∷ none
    ∷ none
    ∷ some Op.time
    ∷ some Op.tstart
    ∷ some Op.tstop
    ∷ some Op.trt
    ∷ []

unfoldable pub of_code : ℕ → Option Op
of_code n = elim (get_elem? op_table n) [ none ↦ none | some o ↦ o ]

pub data Family : Type 0 where
  implied immediate immediate_to_memory memory_related register_access register_to_memory : Family
  memory_to_register register_to_register indirect : Family

-- The set that `families` holds as a bit mask.
unfoldable pub families : Op → List Family
families Op.kill = Family.implied ∷ []
families Op.reset = Family.implied ∷ []
families Op.cpuid = Family.implied ∷ []
families Op.syscall = Family.implied ∷ []
families Op.call = Family.memory_related ∷ Family.immediate ∷ Family.indirect ∷ []
families Op.ret = Family.implied ∷ []
families Op.push = Family.register_access ∷ Family.immediate ∷ []
families Op.pop = Family.register_access ∷ []
families Op.phpc = Family.implied ∷ []
families Op.popc = Family.implied ∷ []
families Op.phsr = Family.implied ∷ []
families Op.posr = Family.implied ∷ []
families Op.phsp = Family.implied ∷ []
families Op.posp = Family.implied ∷ []
families Op.phbp = Family.implied ∷ []
families Op.pobp = Family.implied ∷ []
families Op.seti = Family.implied ∷ []
families Op.sett = Family.implied ∷ []
families Op.sets = Family.implied ∷ []
families Op.clri = Family.implied ∷ []
families Op.clrt = Family.implied ∷ []
families Op.clrs = Family.implied ∷ []
families Op.clrn = Family.implied ∷ []
families Op.clro = Family.implied ∷ []
families Op.clrc = Family.implied ∷ []
families Op.ireq = Family.register_access ∷ Family.memory_related ∷ []
families Op.req = Family.register_access ∷ Family.memory_related ∷ []
families Op.write = Family.register_to_memory ∷ Family.immediate_to_memory ∷ []
families Op.hreq = Family.register_access ∷ Family.memory_related ∷ []
families Op.hwrite = Family.register_to_memory ∷ Family.immediate_to_memory ∷ []
families Op.read = Family.register_access ∷ Family.memory_related ∷ []
families Op.pareq = Family.implied ∷ []
families Op.cmp = Family.register_to_register ∷ Family.memory_to_register ∷ []
families Op.careq = Family.implied ∷ []
families Op.jmp = Family.memory_related ∷ Family.immediate ∷ Family.indirect ∷ []
families Op.jeq = Family.memory_related ∷ Family.immediate ∷ Family.indirect ∷ []
families Op.jne = Family.memory_related ∷ Family.immediate ∷ Family.indirect ∷ []
families Op.jge = Family.memory_related ∷ Family.immediate ∷ Family.indirect ∷ []
families Op.jgr = Family.memory_related ∷ Family.immediate ∷ Family.indirect ∷ []
families Op.jle = Family.memory_related ∷ Family.immediate ∷ Family.indirect ∷ []
families Op.jls = Family.memory_related ∷ Family.immediate ∷ Family.indirect ∷ []
families Op.jo = Family.memory_related ∷ Family.immediate ∷ Family.indirect ∷ []
families Op.jno = Family.memory_related ∷ Family.immediate ∷ Family.indirect ∷ []
families Op.jn = Family.memory_related ∷ Family.immediate ∷ Family.indirect ∷ []
families Op.jnn = Family.memory_related ∷ Family.immediate ∷ Family.indirect ∷ []
families Op.inc = Family.register_access ∷ []
families Op.dec = Family.register_access ∷ []
families Op.add = Family.register_to_register ∷ Family.memory_to_register ∷ []
families Op.sub = Family.register_to_register ∷ Family.memory_to_register ∷ []
families Op.neg = Family.register_access ∷ []
families Op.and = Family.register_to_register ∷ Family.memory_to_register ∷ []
families Op.or = Family.register_to_register ∷ Family.memory_to_register ∷ []
families Op.xor = Family.register_to_register ∷ Family.memory_to_register ∷ []
families Op.not = Family.register_access ∷ []
families Op.sign = Family.register_access ∷ Family.memory_related ∷ []
families Op.shl = Family.register_to_register ∷ Family.memory_to_register ∷ []
families Op.shr = Family.register_to_register ∷ Family.memory_to_register ∷ []
families Op.par = Family.register_access ∷ Family.memory_related ∷ []
families Op.load = Family.memory_to_register ∷ []
families Op.store = Family.register_to_memory ∷ Family.immediate_to_memory ∷ []
families Op.tran = Family.register_to_register ∷ []
families Op.swap = Family.register_to_register ∷ []
families Op.ldsr = Family.register_access ∷ Family.memory_related ∷ Family.immediate ∷ []
families Op.ldsp = Family.register_access ∷ Family.memory_related ∷ Family.immediate ∷ []
families Op.ldbp = Family.register_access ∷ Family.memory_related ∷ Family.immediate ∷ []
families Op.stsr = Family.memory_related ∷ []
families Op.stsp = Family.memory_related ∷ []
families Op.stbp = Family.memory_related ∷ []
families Op.trsr = Family.register_access ∷ []
families Op.trsp = Family.register_access ∷ []
families Op.trbp = Family.register_access ∷ []
families Op.sili = Family.register_access ∷ Family.immediate ∷ Family.memory_related ∷ []
families Op.sihi = Family.register_access ∷ Family.immediate ∷ Family.memory_related ∷ []
families Op.seli = Family.register_access ∷ Family.immediate ∷ Family.memory_related ∷ []
families Op.sehi = Family.register_access ∷ Family.immediate ∷ Family.memory_related ∷ []
families Op.sbp = Family.register_access ∷ Family.immediate ∷ Family.memory_related ∷ []
families Op.stp = Family.register_access ∷ Family.immediate ∷ Family.memory_related ∷ []
families Op.tili = Family.register_access ∷ []
families Op.tihi = Family.register_access ∷ []
families Op.teli = Family.register_access ∷ []
families Op.tehi = Family.register_access ∷ []
families Op.tbp = Family.register_access ∷ []
families Op.ttp = Family.register_access ∷ []
families Op.lcpid = Family.register_access ∷ Family.immediate ∷ Family.memory_related ∷ []
families Op.tcpid = Family.register_access ∷ []
families Op.time = Family.memory_related ∷ Family.register_access ∷ Family.immediate ∷ []
families Op.tstart = Family.implied ∷ []
families Op.tstop = Family.implied ∷ []
families Op.trt = Family.register_access ∷ []

unfoldable pub privileged : Op → Bool
privileged Op.kill = true
privileged Op.reset = true
privileged Op.seti = true
privileged Op.sett = true
privileged Op.sets = true
privileged Op.clri = true
privileged Op.clrt = true
privileged Op.clrs = true
privileged Op.hreq = true
privileged Op.hwrite = true
privileged Op.pareq = true
privileged Op.careq = true
privileged Op.sili = true
privileged Op.sihi = true
privileged Op.seli = true
privileged Op.sehi = true
privileged Op.sbp = true
privileged Op.stp = true
privileged Op.lcpid = true
privileged Op.time = true
privileged Op.tstart = true
privileged Op.tstop = true
privileged _ = false
