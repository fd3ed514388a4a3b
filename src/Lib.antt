-- ===== src/Lib.antt =====
-- The models of typescript2cxx, a transpiler from TypeScript to C++.
--
-- The program parses a TypeScript file with the TypeScript library (src/ast/parser.ts), checks its
-- types (src/type-checker/), transforms it to an intermediate representation (src/transform/, the
-- nodes in src/ir/), generates a C++ header and source from that (src/codegen/generator.ts) and makes
-- a source map for each (src/sourcemap/generator.ts); src/transpiler.ts runs these stages in order,
-- collects errors in the reporter of src/errors.ts and lets plugins see the results.
--
-- Prelude: texts as lists of UTF-16 code units with the string methods that the code calls,
--   objects read by name with what every object inherits (a function or an object, told from a text),
--   integers, lists, matching brackets.
-- SourceMap: src/sourcemap/generator.ts. Vlq is encodeBase64, encodeBase64VLQ and encodeVLQ, with the
--   32-bit shifts written out and seven rounds for the loop, since 32 bits have no more groups of
--   five. Generator is the class SourceMapGenerator as a record that its methods take and return;
--   encodeMappings is a loop over an explicit state, and the inner loop over lines has the number of
--   its rounds as fuel. Create is createSourceMap, with Math.random as a function of the line.
--   Decode and Read are a reader of source maps that does not use the code.
-- TypeChecker: src/type-checker/simple-checker.ts with the resolved types of src/type-checker/types.ts,
--   over the type nodes of the TypeScript library, of which a node has what the checker reads, without the
--   type names that every object inherits a member of, for which the checker gives a function. Strings is
--   getTypeString, Cpp mapToCppType, Flags getTypeFlags and resolveTypeNode.
-- Codegen: parts of src/codegen/generator.ts. Identifier is generateIdentifier, Literal
--   generateLiteral, CppType mapType, with the length of the text as fuel for the nested calls,
--   Pointers isPrimitive and applyMemoryManagement, Declarations isDeclaration. Nodes is the fragment of
--   the expressions and statements of src/ir/nodes.ts that Generate makes code of: generateExpression
--   and generateStatement with the methods that they call, as one block of functions on that syntax, in
--   the monad of Monad, whose state is the indentation, the includes and the counter of temporary names
--   and whose failure is a TypeError, or an identifier with the name of a member that every object
--   inherits: the table of names gives a function or an object for it, which a member access throws at
--   and which the model does not follow into a template string. Operators, Pieces and Member have what
--   the methods make of the code of the parts, Infer the types that they infer. Regular says which
--   syntax the methods read without throwing.
--   Imports is generateImportIncludes, Supers findSuperConstructorCall, Enums generateEnum and
--   generateInterface.
--   Lexical is a scanner of brackets and string literals in C++ code that does not use the generator, and
--   Plain the expressions that it is applied to: names and operators without brackets and quotes, and no
--   functions.
-- Transform: src/transform/transformer.ts. Ast has the nodes of the TypeScript tree inside a function, of
--   which a node has what the transformer reads, Monad the state (the scope stack with its last scope
--   first, the exports, imports and warnings) with an exception as failure, Operators and Types the
--   tables, Visit transformExpression and transformStatement with the methods that they call. Fields
--   that the code reads and that no TypeScript node has (test and body of a while loop, test,
--   consequent and alternate of a conditional) are missing there, as undefined is for the code. Module
--   has imports, exports, namespaces, functions, classes and enums, and transform itself. Patterns has
--   the binding patterns, which stand alone. WellFormed says which trees the generator can read once
--   transformed; Transpile is the transformer followed by the generator. What the generator does not
--   read of an expression (locations, whether a parameter is optional, the name of a function
--   expression) is not kept.
-- Memory: the pointer types of src/memory/annotations.ts. Parser is MemoryAnnotationParser; what its
--   regular expressions find in a line is an argument.
-- Ir: Kind is the kinds of nodes of src/ir/nodes.ts, Guards the guards of src/ir/type-guards.ts, and
--   Interfaces what the interfaces of src/ir/nodes.ts extend, which the guards are compared with.
-- Errors: src/errors.ts, the reporter as a record that its methods take and return.
-- Tests: the theorems at concrete inputs.
--
-- Not modelled: the parser and src/type-checker/checker.ts, which call the TypeScript library; the
-- declarators with patterns and the decorators of the transformer; the functions, classes, namespaces
-- and destructuring of the generator and the texts that it puts the code into; the stages of
-- src/transpiler.ts; the second transformer and the second generator of
-- src/transform/modular-transformer.ts and src/codegen/modular-generator.ts, which nothing calls;
-- files, processes and the command line; the C++ runtime. The text that JSON.stringify makes of a
-- source map, the digits of a number, the matches of regular expressions, and the conversions Number,
-- parseFloat, BigInt and toLowerCase are the language's and stand outside, as arguments where a
-- definition needs them.
pub mod Prelude
pub mod Tests
pub mod SourceMap
pub mod TypeChecker
pub mod Codegen
pub mod Ir
pub mod Errors
pub mod Memory
pub mod Transform
