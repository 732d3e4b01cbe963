-- ===== src/Lib.antt =====
-- PoprC, a compiler for the Popr language: verified parts of it.
--
-- The compiler reads a source text, cuts it into tokens (parse/tok.c, parse/lex.c), builds the words
-- of its modules from them (parse/parse.c, module.c), and compiles a word by evaluating it on
-- symbolic arguments: cells (cells.c) are reduced (eval.c, rt.c, list.c, primitive/*.c), and what
-- cannot be reduced is recorded in a trace (ir/*.c). During the reduction every number has a range.
-- A range is inferred from the arguments of a word, and a range that is wanted of a result bounds
-- the arguments.
--
-- The files:
--   Prelude        booleans, lists, integers and bits over the native numbers
--   Words          `intptr_t` as integers between -2^63 and 2^63 - 1, and ranges of them
--                  (rt_types.h: val_t; startle/types.h: range_t)
--   Saturation     the saturating arithmetic of the Startle library (sat_addi, sat_subi, sat_muli,
--                  sat_divi, sat_negi, div_maxi, div_mini) as an interface: a record of functions
--                  with the equations that describe them. Saturation/Reference fills it.
--   Arithmetic     primitive/arithmetic.c: the integer operations (add_op to neq_op), the range
--                  functions (add_range_op to bool_range_op, for an operation the range of its
--                  results), bound_contexts_arith and bound_contexts_cmp (for a wanted result the
--                  ranges of the arguments). Every function takes the Saturation it calls.
--                  Arithmetic/Identities: the functions that replace a word before it is computed
--                  (add_identity, mul_identity, sub_identity, div_identity, eq_identity,
--                  neq_identity).
--   Token          parse/tok.c and parse/lex.c: char_class, skip_comment, string_literal_end, tok,
--                  update_line, lex, tok_indent, and attribute_parser of parse/parse.c
--   Cells          cells.c: the sizes of closures (closure_shrink, calculate_cells), string
--                  cells (with make_string, make_strcat and value_seg of special.c), and the sets
--                  of alternatives (as_single to as_from_mask)
--   Cells/Ring     the storage of cells.c: cells_init, cells_next, cell_alloc, closure_alloc_cells,
--                  cell_free, closure_shrink, check_cycle, and free_toks of parse/lex.c. The state
--                  is the record Pool: the links of the free cells and the file's variables. The
--                  ring is described by a list of cells (IsRing), and IsPool adds the account: cells
--                  given out and cells on the ring are the cells used so far.
--   ListCells      list.c: list_begin, list_next, list_remaining_size, list_rest, and the loop of
--                  FORLIST (macros.h) over them
--   Lines          parse/parse.c: parse_rhs_expr, on the tokens of Token
--   Maps           the maps from strings of startle/map.c as an interface, StringMap, which
--                  Maps/Entries fills with association lists
--   Modules        module.c: make_module, expand_map, module_get, module_set, module_get_or_create
--   Parse          parse/parse.c: the storage of strings (Strings: seg_string, strings_drop), the
--                  table of symbols (Symbols: parse_init, intern, symbol_string), spellings (Words:
--                  is_num, match_param_word, is_reserved and others), definitions and modules (Defs:
--                  parse_def, check_def, parse_defs; Defs/Load: parse_module), and expressions (Expr:
--                  push_arg and the binding of arguments; Expr/Loop: parse_subexpr, parse_expr).
--                  Defs calls Lines, Modules and Strings. What parse_subexpr does to cells is the
--                  interface CellBuilder.
--   QuoteSize      rt.c: compose_size_a, compose_size_b, compose_size_c
--   Widths         ir/analysis.c: bits_needed, and the functions of startle/support.c that it and
--                  mul_identity call as an interface, which Widths/Reference fills
--   Analyze        eval.c: inputs_from_number
-- A part's directory holds its proofs, and `Tests` its runs and the concrete instances.
--
-- How the model reads the code:
--   * A word is 64 bits wide. An integer operation that can overflow wraps around, as the machine's
--     does: `wrap` in Words. `/` and `%` round as C's do, and have no value where C defines
--     none: for a divisor of 0, which the words test for, and for INTPTR_MIN and -1.
--   * A range is inclusive; INTPTR_MIN and INTPTR_MAX as ends stand for infinity.
--   * A text is the list of its bytes, a pointer into it is an index, and its end `e` is where the
--     NUL stands. `char` is signed: a byte from 128 on is negative.
--   * A failed assertion is a value: `thrown`, or `none` where nothing else can fail.
--   * The loops of skip_comment, string_literal_end and the scanning loop of `tok` are structural on
--     the rest of the text. The loops over blanks and comments and over tokens take a bound on
--     their rounds: one more than the characters of the text, which is enough since each round
--     moves forward.
--   * The loops of list_next and list_remaining_size follow the lists in the rows; they take a bound
--     on their rounds, and more rounds than such lists are enough.
--   * The search of closure_alloc_cells along the ring takes a bound on its rounds. The cells before
--     the mark, times the size and two, and the size are enough: a round finds a cell more or moves
--     along the ring.
--   * parse_defs takes a round for every definition, so one more than the tokens are enough;
--     parse_subexpr takes at most two for every token.
--   * A pointer into `strings` that the table of symbols or a module keeps stands for the text there.
--   * Sizes of closures and indices in lists have 16 bits (csize_t).
--   * A structure that the code updates in place is a record that is passed on.
--
-- Not modelled: the Startle library beside the interface above, input and output (io.c, irc.c,
-- command.c, primitive/io.c), debugging output (debug/*.c, print functions), the generators of
-- C and Verilog (gen) and their runtime (cgen), and so far the counts of references and the
-- reduction of cells, parse_word, the lookup through imports, the trace and its compilation.
-- Statistics, watch points and log messages are left out of the functions that are modelled.
pub mod Analyze
pub mod Arithmetic
pub mod Cells
pub mod Lines
pub mod ListCells
pub mod Maps
pub mod Modules
pub mod Parse
pub mod Prelude
pub mod QuoteSize
pub mod Saturation
pub mod Token
pub mod Widths
pub mod Words
