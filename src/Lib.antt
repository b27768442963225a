-- ===== src/Lib.antt =====
-- SMTLIBParser reads SMT-LIB 2 scripts into hash-consed terms and evaluates and rewrites them.
-- This library models nine parts of it and proves what makes them correct.
--
-- The parts and their files:
--   * Symbols (include/somtparser/frontend/symbol_manager.h, src/frontend/symbol_manager.cpp): the
--     SymbolManager. Symbols.antt has its state and the resolution of a name, resolveSymbol,
--     resolveTerm, resolveFun and resolveSort, over findEitherSpelling. Symbols/Let.antt has the let
--     scopes, pushLetScope, registerLet and popLetScope, an undo log of bindings. Symbols/Tables.antt
--     has the other tables, and Symbols/Tables/Order.antt getDeclaredVariables of
--     src/frontend/base_parser.cpp, which reads two of them.
--   * Context (include/somtparser/frontend/parser_context.h, src/frontend/parser_context.cpp): the
--     ParserContext. Context/Named.antt has nameAssertion on the two maps of names, and
--     Context/Scopes.antt pushScope, popScope, resetAssertions and the recording in the innermost
--     scope. A scope that is closed removes what it declared from the SymbolManager.
--   * BitVec (src/core/util.cpp, namespace BitVectorUtils): arithmetic on bit-vectors written as
--     #b literals. Bitwise, Arith, Signed, Shift, Slice and Compare follow the order of the source.
--     The parser folds constants with it.
--   * Kind (include/somtparser/core/kind.h, src/core/kind.cpp): the kinds of nodes, their printed
--     names, the table that reads operator names, and the negated and flipped comparisons.
--   * Term (include/somtparser/ir/dag.h, src/frontend/op_parser.cpp, src/frontend/simp_parser.cpp):
--     the Boolean terms. Term.antt has the nodes, Term/Meaning.antt what they mean by SMT-LIB,
--     Term/Simp.antt simp_oper and Term/Make.antt the constructors mkNot, mkAnd, mkOr, mkImplies,
--     mkXor, mkIte, mkEq, mkDistinct and the comparisons, which simplify as they build.
--     Term/WellSorted.antt says which formulas are well sorted by SMT-LIB, and which of them are
--     binary: their implications have two operands, and their comparisons of integers compare two
--     variables. Term/Covered.antt has what the lemmas need of them.
--   * Convert (src/frontend/conv_parser.cpp): conversions of formulas, which build with Term.
--     Convert/Nnf.antt has toNNF and its map of results, Convert/Tseitin.antt toTseitinCNF with its
--     state, the clauses, the counter of variables and the maps of the atoms.
--   * Number (include/somtparser/ir/number.h, src/ir/number.cpp): the numbers of intervals. Number.antt
--     has the integers, the two infinities and NaN, with the comparisons, sums and products that mix
--     them.
--   * Interval (include/somtparser/ir/interval.h, src/ir/interval.cpp): intervals of numbers. Interval.antt
--     has the set operations, unionMulti and the comparisons, Interval/Integers.antt getIntegers and
--     getIntervalIntCount, and Interval/Arith.antt the linear arithmetic, the remainders and the cases
--     NT_AND and NT_OR of operate. An interval is a record of two bounds and two flags, and what it
--     means is the numbers that contains accepts.
--   * Text (src/core/util.cpp, namespaces ConversionUtils and StringUtils): the text of string literals.
--     Text/Escape.antt has escapeString and unescapeString, Text/Utf8.antt the code points, and
--     Text/Strings.antt searching and replacing.
--
-- How the code is represented: a std::string is the list of its bytes, where the kinds use ASCII
-- names, which are strings; an unordered map is a Dict or, keyed by a node, a PtrMap, neither of
-- which shows an order; a node is known by its number, as the nodes are hash-consed; a pointer
-- that may be null is an Option. A state is a record, and an operation takes it and returns the
-- next. Exceptions and failed assertions are the errors of Result.antt; a term constructor that
-- throws on a mistake in the sorts gives the node `unknown`, which the source returns after the
-- throw; toTseitinCNF, where an assertion fails, gives the node `error`. uint64_t and size_t are natural numbers with their wrap-around written out, as % 2 ^
-- 64. Loops are structural recursion, except the loop of getIntegers, which has fuel: as many
-- rounds as there are integers between the bounds, which is enough, and the loop of
-- strReplaceAll, whose fuel is the length of the text, a byte of which goes in every round.
-- What std::string, std::min and the printing and reading of hexadecimal digits do is written out
-- as their documentation says.
--
-- What is a parameter: the printing of an integer in base 2 by GMP (record Gmp), which has to print
-- the bits of a number that is not negative; the objective manager (record Objectives), of which
-- the laws of scopes ask that cutting it to its own size changes nothing; the option
-- preserved_operators, a test on operators; and the key that operands are ordered by,
-- DAGNode::orderKey, a hash. Nothing is asked of the last two. std::sort is a parameter of unionMulti,
-- of which the laws ask that it gives the same intervals in another order, and, where the order of the
-- result is concerned, that no interval comes before the one that it follows.
--
-- What is not modelled: the lexer, the commands, let and quantified terms and the terms of the
-- other theories, the other conversions, the evaluation of terms, the values, the models, the
-- passes and the Python bindings. Of BitVectorUtils, the literals read from hexadecimal and
-- decimal text; of the kinds, the table of keywords. Of the numbers, the rationals and the
-- finite reals, which MPFR rounds; of the intervals, the product and quotients of two intervals
-- and the transcendental functions; of the strings, the letter case and the regular expressions.
--
-- The modules named Laws, Symbols/Resolve.antt and the children of Let, Tables, Arith, Make,
-- Nnf, Tseitin, Number, Interval, Integers and Strings hold the theorems; the modules named
-- Tests run the definitions and apply the theorems at concrete inputs.
pub mod Prelude
pub mod Result
pub mod Kind
pub mod Dict
pub mod PtrMap
pub mod Symbols
pub mod BitVec
pub mod Context
pub mod Term
pub mod Convert
pub mod Number
pub mod Interval
pub mod Text
