-- ===== src/Lib.antt =====
-- ANC216, the emulated 16-bit computer of this repository: its instruction set, its processor and what
-- the processor does on the external bus, the file system of its cards, the disassembler, and the
-- tokens, the analyzer and the last pass of the assembler.
--
-- The program. common/encoding.hh defines the instruction set: `decode` reads the addressing byte of an
-- instruction, `opcode` gives the operations with their families and privilege, `valid` the forms that
-- they accept. emulator/src/cpu.cc is the processor: `CPU::execute` serves the control pins, lets
-- `EmemMapper::pump_keyboard` deliver a key, updates the timer, stops at breakpoints, fetches an
-- instruction, finds its operand and performs it; a `Fault` becomes a non-maskable interrupt. The worker
-- thread calls it in batches, the debugger one step at a time. emulator/src/emem.cc maps the external
-- memory to devices, which answer reads and writes, and calls `CPU::einr` for requests.
-- cardreader/include/afs.hh keeps files in an image of 65536 bytes. Of the assembler,
-- assembler/include/tokenizer.hh makes the tokens of a program, assembler/include/analyzer.hh gives the
-- labels of its tree their addresses and its lines their sizes, and assembler/include/assembler.hh emits
-- the bytes; disassembler/include/disassembler.hh reads them back. Both use the tables of the processor.
--
-- The files.
--   Base: names of the libraries, Boolean tests, casts, integers, and laws checked value by value.
--   Isa/Opcode, Isa/Encoding, Isa/Valid: common/encoding.hh.
--   Cpu/Status, Cpu/State: the flags and the fields of `CPU` (emulator/include/cpu.hh).
--   Cpu/Exc, Cpu/Monad: what a method throws, and methods in sequence: a state change made before a
--     throw stays made, as in the source.
--   Cpu/Access, Cpu/Memory: `mapped`, `check`, `read`, `write`, `stack_address`, `push`, `pop`.
--   Cpu/Alu, Cpu/Exec: registers, flags, arithmetic, and the `switch (op)` of `execute`.
--   Cpu/Interrupt: `interrupt`, `einr`, `update_timer` and the handlers at the end of `execute`.
--   Cpu/Boundary, Cpu/Fetch, Cpu/Operand: the parts of `execute` before the switch.
--   Cpu/Control: the other public methods of `CPU`, those that look at it in Cpu/Control/Inspect.
--   Cpu/Frame, Cpu/Rom, Cpu/Confined, Machine/Frame: relations between the processor before and after a
--     method, carried through the sequences by one rule.
--   Machine/Bus: what the processor uses of `EmemMapper`, as an interface on the devices' state.
--   Machine/Io, Machine/Step, Machine/Run: the bus operations with `EmemMapper::request` and
--     `EmemMapper::pump_keyboard`, `CPU::execute`, `CPU::step` and a batch of `CPU::cycle`.
--   Devices/Keyboard, Devices/Mpme, Devices/Rom: the keyboard (emulator/src/keyboard.cc), the memory
--     card and the ROM cells of emulator/src/emem.cc; the card's host file is a parameter.
--   Devices/Emem: `EmemMapper` over these devices, as the processor's bus.
--   Afs/Layout, Afs/Names, Afs/Search, Afs/Chain: where things are in an image, names and paths, the
--     lookups, and `AFS::chain`.
--   Afs/Edit, Afs/Content: `make_dir`, `touch`, `remove_file`, `set_boot`, `get_content`, `set_content`;
--     the modules below Afs/Content follow a content through the writing loop and back.
--   Afs/Valid: `validate` and the constructors; Afs/Browse: the listings and `change_directory`.
--   Disasm: `Disassembler::disassemble`, with the names of the operations.
--   Asm/Comments, Asm/Lexer: `remove_comments` and `tokenize` of assembler/include/tokenizer.hh;
--     Asm/Lexer/Cursor: the cursor that the parser moves over the tokens.
--   Asm/Tree, Asm/Eval, Asm/Encode, Asm/Dump: syntax trees and the environment, `eval_expression`,
--     `build_addressing_mode` and `get_arguments`, `dump_instruction` and `assemble`; `std::stoi` is a
--     parameter.
--   Asm/Size, Asm/Modes: `get_expression_size`, `is_evaluable` and `eval_expression` of
--     assembler/include/analyzer.hh; `get_instruction` and the functions that it calls.
--   Asm/Analyze: `Analyzer::analyze`, with a child for the state, for instructions and `org`, for
--     labels and sections, for structures, for variables and for data. Asm/Analyze/Aligned and
--     Asm/Analyze/Kept are the invariant of its addresses; Asm/Dump/Length, Asm/Dump/Split and
--     Asm/Analyze/Layout carry it to the bytes of the last pass. Asm/Gives: what holds of a value that
--     comes with errors.
--   Sample: concrete machines; a program that is run from reset.
--
-- The state. A byte or a word is the number of its bit pattern, with the wrap-around written out; an
-- array is a function of the index. `sr` is a record of the eight flags. The clock is an argument of
-- each step, in nanoseconds. A text is the list of its bytes. `none` stands for an exception where a
-- method of the file system or of the assembler throws. In the assembler it also stands for a child of
-- a tree that is not there, which the parser does not make, and for a null pointer that is read;
-- values are integers, where the source has `int`, in which an overflow is undefined.
--
-- Fuel. Most loops run over a list or a count. Four take fuel: the chain of a file (198 rounds, two
-- more than there are clusters, each of which is seen once), the way from a directory to the root (98,
-- likewise), the disassembler (one round more than there are bytes, of which each round takes one at
-- least), and the tokenizer (likewise for characters). Running out is a result of its own.
--
-- Not modelled: threads and locks (a method runs whole, as under the processor's mutex), the wait
-- between batches, reading the boot file and the images, the video card (a build without SDL has
-- none), the debugger's console, the parser of the assembler, the insertion of another module's
-- tokens, the section of a label, the similar names in its messages, the removal of directories and
-- the searches over the tree of a card, the command lines, the compiler backend and the guest's own
-- programs.
pub mod Base
pub mod Isa
pub mod Cpu
pub mod Machine
pub mod Devices
pub mod Afs
pub mod Disasm
pub mod Asm
pub mod Sample
