-- ===== src/Lib.antt =====
-- Aris, a proof assistant for first-order logic: the crate in aris/. Expressions (aris/src/expr.rs)
-- are converted to normal forms for the rules that compare formulas and for the rule that asks a
-- SAT solver; proofs are kept as lists with an edit cursor (aris/src/zipper_vec.rs).
--
-- ZipperVec models aris/src/zipper_vec.rs: the record has the struct's two fields, each `Vec` with
-- its last element first, and each function is named as the method that it models. A failed
-- assertion and a loop that would not end are `none`. The loops of `move_cursor` recur on the stack
-- that they pop.
-- Expr, Expr.Equal, Expr.Show, Expr.Build, Expr.Arities and Expr.Eval model the type `Expr`, its
-- equality, its printing, its helpers, `infer_arities` and `Expr::eval` of aris/src/expr.rs; a
-- panic is `none`.
-- Nnf and Cnf model `NnfExpr` and `CnfExpr` of the same file with `Expr::into_nnf` and
-- `Expr::into_cnf`; their recursion is structural. The crate itertools is an interface
-- (Base.Product) with the documented order of its products.
-- Vars models `free_vars` and `gen_var`, Subst `subst` and `Substitution::apply`, Transform
-- `Expr::transform`, and Normalize the normalizers that run one step through it, with the two
-- binary forms, the prenex form (Normalize.Prenex), half De Morgan and the numbering of bound
-- variables, all of aris/src/expr.rs. A set of names is a list without repetition. `subst` recurs
-- into renamed bodies: its fuel is the number of nodes, which a renaming keeps. `gen_var` has the
-- 2^64 numbers of the code as fuel, and the end of the numbers is its panic. `transform` recurs
-- into the rewritten node, and its loop runs while a step reports a change: both have fuel, and
-- Transform.Ends shows that a weight that each reported change lowers is enough of both.
-- Unify models `unify` of the same file: the hash set of constraints is a list without repetition,
-- and which constraint it yields first is a parameter. Its fuel counts the calls; Unify.Ends shows
-- that there is enough of it where no constraint has a quantifier, since a call removes a name from
-- the constraints or nodes and no name. Unify.View takes a call apart, Unify.Terms is the algebra
-- of terms, in which Unify.Clash tells failures, Unify.Sound and Unify.General are the two halves
-- of what the result means, and Unify.Apply puts `apply` behind it.
-- Expr.Denote says what an expression denotes in an algebra, and Normalize.Classical names the laws
-- of an algebra that a normalizer needs; Expr.TwoValued is the algebra of truth values.
-- Pool models aris/src/proofs/pooledproof.rs and the references of aris/src/proofs.rs: Pool the
-- pools, Pool.Add and Pool.Relative the add operations, Pool.Remove the removals, Pool.Lines the
-- other methods, Pool.Scope `possible_deps_for_line`, `can_reference_dep` and `verify_line`, whose
-- check of the rule is a parameter. A subproof that a method is called on, `self`, is the root or a
-- key of the pool, which is what the code finds by comparing addresses. A key has the 64 bits of
-- `usize`; the theorems ask for room for one more. Whether the insertion of a subproof leaves the
-- entry of `self` where it is in the map is the parameter `Placement`; where it moves, the code
-- goes on through a reference that is not valid any more, and the result is `none`. The chains of
-- parents are on fuel; a subproof has a greater key than its parent, so two more than the key of
-- the first parent is enough.
-- Pool.Placed says when the lists of lines and the parents agree, and Pool.Built which proofs the
-- additions build. Pool.Keys is about the keys as numbers of 64 bits.
-- Rules models aris/src/rules.rs: Rules the enumerations, Rules.Names the table of declared rules
-- with the two functions that the macro defines on it, Rules.Counts and Rules.Titles the metadata,
-- Rules.Order `any_order` and `either_order`, Rules.Check `SharedChecks`, and Rules.Propositional,
-- Rules.Boolean, Rules.Conditional and Rules.Biconditional the `check` of those groups, which
-- Rules.Groups puts behind the shared checks. Out of range indices, failed assertions and `unwrap`
-- are the result `panic`. A check looks lines up in a proof of Pool. The crates itertools (the
-- orders of at most three elements, Base.Product) and petgraph (strongly connected components) are
-- the parameters `Permutations` and `Petgraph`; the counter of `BiconditionalIntro` is unbounded,
-- where the code has an `i32`, and the line that it prints is left out. A hash set of operands is
-- the list of them, since the code only asks what it contains. Rules.Models says what a rule is
-- judged by: the assignments of truth values to expressions that respect the connectives.
-- Rules.Verified composes `verify_line` with the checks of these groups, on proofs whose rules are
-- of them.
-- Rewrite models aris/src/rewrite_rules.rs without `reduce`: the patterns of a rule in all orders
-- of their operands. Rewrite.Equivs has the patterns of aris/src/equivs.rs as the parser reads
-- them, and Rewrite.Rules lists the rules. Rewrite.Swapped says which expressions differ in the
-- order of two operands, Rewrite.Members and Rewrite.Permuted what `permute_ops` lists, and
-- Rewrite.Tables tries the patterns by truth tables, as the test of aris/src/equivs.rs does.
-- Base holds the shared lists, tests and options.
--
-- Not modelled: the rules for predicates and quantifiers, the equivalence rules, induction and the
-- special rules; the reduction by patterns, which unifies; the derived order, and the normalizers
-- that sort by it; the lined proof; the parser and XML (third-party libraries), the bindings, the
-- web client and the auto grader.
pub mod Base
pub mod ZipperVec
pub mod Expr
pub mod Nnf
pub mod Cnf
pub mod Vars
pub mod Subst
pub mod Transform
pub mod Unify
pub mod Normalize
pub mod Pool
pub mod Rules
pub mod Rewrite
