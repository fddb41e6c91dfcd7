-- ===== src/Lib.antt =====
-- Geas assembles EVM programs. A source file is parsed (internal/ast), its includes are loaded
-- (internal/loader), and asm turns the document into bytecode: macros are expanded into a flat list
-- of instructions, arguments that use no label are evaluated, a loop looks for PUSH sizes at which
-- all label values fit, and the bytes are written out. internal/evm has the instruction table and
-- the forks; asm and disasm ask it for instructions. internal/stack is a symbolic stack that follows
-- instructions and stack comments, used by internal/stackcheck. internal/lzint has the values of
-- expressions.
--
-- Which file models what:
--   Prelude          the names that the modules share: Boolean tests, lists, maps, integers with
--                    math/big's operations, and hexadecimal text
--   Evm.Op, Oplist   the type Op and the list `oplist` of internal/evm/ops.go, by its sections
--   Evm.Immediate    DecodeImmediate, EncodeImmediateArgs, ValidateImmediate and what they call, in
--                    internal/evm/ops.go
--   Evm.Effect       StackIn, StackOut and PushSize of internal/evm/ops.go
--   Evm.Defs         computeOpsMap and the map opm, and the types of internal/evm/instruction_set.go
--   Evm.Forks        forkReg of internal/evm/forkdefs.go
--   Evm.InstructionSet   FindInstructionSet, lineage, resolveDefs and the lookups of
--                    internal/evm/instruction_set.go
--   Set              internal/set/set.go
--   Lzint            Value of internal/lzint/value.go: FromInt, FromBytes, Bytes, ByteLen,
--                    IntegerBitLen
--   Lzint.Literal    ParseNumberLiteral and String of internal/lzint/value.go
--   Stack.Names      assignName, isIdentifier (internal/stack/stack.go), and the wildcard functions
--                    of internal/stack/stackcomment.go
--   Stack.Defs       the type Stack and its small methods, and Init, in internal/stack/stack.go
--   Stack.Check      checkComment and CheckComment of internal/stack/stack.go
--   Stack.Apply      Apply of internal/stack/stack.go
--   Stack.Comment    ParseComment of internal/stack/stackcomment.go
--   StackCheck.Blocks    splitBlocks of internal/stackcheck/blocks.go
--   StackCheck.Effect    effectFromStack and dedup of internal/stackcheck/effect.go
--   Ast, Ast.Statement   the syntax tree of internal/ast/ast.go, expr.go, arith.go and names.go
--   Ast.Lexer        internal/ast/lexer.go; its child Defs has the state and the tokens
--   Loader           the definitions of a program, in internal/loader/program.go
--   Loader.ErrorList internal/loader/errorlist.go
--   Asm.Program      instruction, computePC and iterInstructions of asm/compiler_prog.go
--   Asm.Arguments    preEvaluateArgs, evaluateArgs and assignPushArg of asm/compiler_eval.go
--   Asm.Layout       the loop of compile in asm/compiler.go
--   Asm.Output       generateOutput of asm/compiler.go, and unreachableCodeCheck of
--                    asm/compiler_analysis.go
--   Asm.Evaluator    the evaluator of asm/evaluator.go; its child Builtins has
--                    asm/evaluator_builtins.go, Arith the operators, Defs the state
--   Asm.Expand       the expansion of documents in asm/compiler_expand.go, and statementFromAST of
--                    asm/statements.go; its child Defs has compilerProg of asm/compiler_prog.go,
--                    Resolve resolveOp, Opcode the expansion of an opcode statement
--   Asm.Compile      compile of asm/compiler.go, composed of Asm.Expand and Asm.Backend
--   Asm.Backend      compile of asm/compiler.go from the end of the expansion on, and checkPCLabels
--                    of asm/compiler_analysis.go
--   Asm.Analysis     checkLabelsUsed and checkDuplicateParams of asm/compiler_analysis.go
--   Disasm           disasm/disassembler.go
-- The child modules of these hold the proofs, and the modules called Tests the runs at concrete
-- values.
--
-- How state is modelled. A struct is a record, and a method that changes it is a function that also
-- returns the new record. A panic is a value of the result type. The Go slice of a symbolic stack
-- has its top last, the list has it first. A Go map is a function into Option. Numbers are natural
-- numbers: counters and PCs are far from the bounds of int, and a byte is a number below 256.
--
-- Pointers that the source compares (documents, definitions, macro calls) carry numbers. The
-- evaluator is a monad over its state, whose failures keep the state, as deferred calls need. The
-- output program has the chain of the open sections as a list, and a label that waits for its
-- instruction has none yet. The lexer has the source as the runes before its start and those after.
--
-- Parameters. The tables of package unicode are tests on characters, strings.ToLower and
-- strings.ToUpper functions on names; the lexer is given the runes that unicode/utf8 decodes, with
-- their widths. In the assembler's back end the evaluator is a function from the PCs of the
-- instructions to a value or an error. In the evaluator the hash functions, the checks of selectors
-- and addresses, and path.Clean are parameters. So are the compiler that assemble() starts and what
-- math/big can shift, each with the case that it does not return: that a file which assembles
-- itself makes compilers start one another without end is not derived. In splitBlocks the test for
-- calls that never return is one, as in the source.
--
-- Fuel. lineage_loop runs for two rounds more than the registry has definitions: each round but the
-- last visits another one. layout_loop runs for 32 rounds for each instruction and one more: each
-- round but the last makes one PUSH a byte longer, and 32 bytes is the most. items_loop, which reads
-- the items of a stack comment, has one round more than the text has characters, and decode_loop of
-- the disassembler one for each byte: each round takes one at least. The fuel of eval is its
-- caller's choice; what it needs depends on the size of the expression, the macros of the program and
-- the nesting of instruction macros. The fuel of expand is its caller's choice too; what it needs
-- depends on the macros that are not entered yet and on the nesting of includes. The lexer has one
-- round for each rune of the source: each takes one at least. The loops on numbers (digits, bytes, bits) take
-- the number itself as their fuel.
--
-- Not modelled: the parser (internal/ast/parse.go), the loader's walk over files, the printer, the
-- analysis of blocks (internal/stackcheck/check.go), and the command line. Of the expansion, the
-- limit on the number of errors is left out; of compile, its warnings and options.
pub mod Prelude
pub mod Evm
pub mod Set
pub mod Stack
pub mod Lzint
pub mod Asm
pub mod Disasm
pub mod Ast
pub mod Loader
pub mod StackCheck
