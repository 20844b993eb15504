-- ===== src/Asm/Lexer/Text.antt =====
-- Characters, and the words of assembler/include/tokenizer.hh.
use anc.Base.{
  ℕ, ◌+◌, Bool, false, ◌&&◌, ◌||◌, List, [], ◌∷◌, leb, ◌==◌, if◌then◌else◌, codes, same_text,
}

abbrev pub is_alpha : ℕ → Bool
is_alpha c = leb 65 c && leb c 90 || leb 97 c && leb c 122

abbrev pub is_digit : ℕ → Bool
is_digit c = leb 48 c && leb c 57

abbrev pub is_blank : ℕ → Bool
is_blank c = c == 13 || c == 9 || c == 32

-- `tolower`.
abbrev pub lower_text : List ℕ → List ℕ
lower_text [] = []
lower_text (c ∷ cs) = (if leb 65 c && leb c 90 then c + 32 else c) ∷ lower_text cs

abbrev pub among : List ℕ → List (List ℕ) → Bool
among text [] = false
among text (word ∷ words) = same_text text word || among text words

abbrev pub keywords : List (List ℕ)
keywords =
    codes "use"
    ∷ codes "as"
    ∷ codes "import"
    ∷ codes "if"
    ∷ codes "endif"
    ∷ codes "elif"
    ∷ codes "org"
    ∷ codes "section"
    ∷ codes "local"
    ∷ codes "global"
    ∷ codes "structure"
    ∷ codes "var"
    ∷ codes "reserve"
    ∷ []

abbrev pub instruction_words : List (List ℕ)
instruction_words =
    codes "kill"
    ∷ codes "reset"
    ∷ codes "cpuid"
    ∷ codes "syscall"
    ∷ codes "call"
    ∷ codes "ret"
    ∷ codes "push"
    ∷ codes "pop"
    ∷ codes "phpc"
    ∷ codes "popc"
    ∷ codes "phsr"
    ∷ codes "posr"
    ∷ codes "phsp"
    ∷ codes "posp"
    ∷ codes "phbp"
    ∷ codes "pobp"
    ∷ codes "seti"
    ∷ codes "sett"
    ∷ codes "sets"
    ∷ codes "clri"
    ∷ codes "clrt"
    ∷ codes "clrs"
    ∷ codes "clrn"
    ∷ codes "clro"
    ∷ codes "clrc"
    ∷ codes "ireq"
    ∷ codes "req"
    ∷ codes "write"
    ∷ codes "hreq"
    ∷ codes "hwrite"
    ∷ codes "read"
    ∷ codes "pareq"
    ∷ codes "cmp"
    ∷ codes "careq"
    ∷ codes "jmp"
    ∷ codes "jeq"
    ∷ codes "jz"
    ∷ codes "jne"
    ∷ codes "jnz"
    ∷ codes "jge"
    ∷ codes "jgr"
    ∷ codes "jle"
    ∷ codes "jls"
    ∷ codes "jo"
    ∷ codes "jno"
    ∷ codes "jn"
    ∷ codes "jnn"
    ∷ codes "inc"
    ∷ codes "dec"
    ∷ codes "add"
    ∷ codes "sub"
    ∷ codes "neg"
    ∷ codes "and"
    ∷ codes "or"
    ∷ codes "xor"
    ∷ codes "not"
    ∷ codes "sign"
    ∷ codes "shl"
    ∷ codes "shr"
    ∷ codes "par"
    ∷ codes "load"
    ∷ codes "store"
    ∷ codes "tran"
    ∷ codes "swap"
    ∷ codes "ldsr"
    ∷ codes "ldsp"
    ∷ codes "ldbp"
    ∷ codes "stsr"
    ∷ codes "stsp"
    ∷ codes "stbp"
    ∷ codes "trsr"
    ∷ codes "trsp"
    ∷ codes "trbp"
    ∷ codes "sili"
    ∷ codes "sihi"
    ∷ codes "seli"
    ∷ codes "sehi"
    ∷ codes "sbp"
    ∷ codes "stp"
    ∷ codes "tili"
    ∷ codes "tihi"
    ∷ codes "teli"
    ∷ codes "tehi"
    ∷ codes "tbp"
    ∷ codes "ttp"
    ∷ codes "lcpid"
    ∷ codes "tcpid"
    ∷ codes "time"
    ∷ codes "tstart"
    ∷ codes "tstop"
    ∷ codes "trt"
    ∷ []
