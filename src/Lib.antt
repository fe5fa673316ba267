-- ===== src/Lib.antt =====
-- go-io: storage mediums behind one interface, and sigils, the byte transformations that
-- encode and encrypt what is stored.
--
-- Parts of the program and their models:
--   go/sigil/sigil.go: `Sigil`, `Transmute`, `Untransmute`, in Sigil.
--   go/sigil/sigils.go: `NewSigil` and the codecs in Sigil/Codec, `indentJSON` in
--     Sigil/Json.
--   go/sigil/crypto_sigil.go: `ChaChaPolySigil` in Sigil/Cipher, `XORObfuscator` and both
--     key streams in Sigil/Xor, `ShuffleMaskObfuscator` in Sigil/Shuffle.
--   go/io.go: the `Medium` interface as far as `Copy` uses it, `FileInfo`, `DirEntry` and
--     `Copy` in Medium; `MemoryMedium` in Memory, `Rename` in Memory/Move, `MemoryFile` and
--     `MemoryWriteCloser` in Memory/Stream, `List` in Memory/Listing.
--   go/mock.go: `MockMedium` in Mock, its `List` in Mock/Listing. Both `List`s collect in
--     Entries.
--   go/node/node.go: `Node` in Node, its streams in Node/Streams, the archive in
--     Node/Archive, `ReadDir`, `List` and `CopyTo` in Node/Reading.
--   go/store/store.go: `KeyValueStore` in Store, over a table whose statements are a
--     parameter.
--   go/store/medium.go: the medium over it in Store/Medium, its files, writers and
--     predicates in Store/Medium/Reading.
--   go/internal/fsutil/direntry.go: the order of directory entries in Fsutil.
--   go/io.go again: the whole `Medium` interface in Storage, what it promises of files in
--     Storage/Contract, and `MemoryMedium` as such a medium in Memory/Whole.
--   go/workspace/workspace.go: the names and paths in Workspace, `scopedMedium` in
--     Workspace/Scoped, `Workspace` and, with go/workspace/command.go, its commands in
--     Workspace/Service.
--   go/workspace/service.go: the paths of the service with encrypted files in
--     Workspace/Encrypted, its methods in Workspace/Encrypted/Methods.
--   go/local/medium.go, go/local/medium_link.go: paths in Local, symbolic links and
--     `validatePath` in Local/Links, the methods in Local/Methods.
--   go/datanode/medium.go: the loops over a DataNode in Datanode, the methods in
--     Datanode/Methods, `DeleteAll` and `Rename` in Datanode/Tree, `List`, `Stat` and the
--     streams in Datanode/Reading.
--   go/cube/cube.go: the encrypting medium in Cube, the walks of `Pack` and `Unpack` in
--     Cube/Archive.
-- A definition has the name of its Go function in snake case. `ChaChaPolySigil.In` and `Out`
-- are `inward` and `outward`. A cipher sigil calls its obfuscator on the plaintext before it
-- seals, and a pipeline calls any sigil; `Copy` calls `Read` and `Stat` of one medium and
-- `WriteMode` of another. The medium of go/cube runs a pipeline of one cipher sigil before and
-- after the calls of the medium below it; a scoped medium of go/workspace puts its paths below
-- a root; the local medium validates its paths and calls `core.Fs`. Encrypted workspaces run the
-- cipher sigil with a key that HKDF derives from their key file. All four take a medium as a
-- `Storage`; the first three are one, so that they can be stacked, and `Storage.Run` is a sequence
-- of calls.
--
-- State: a `MemoryMedium` is a record of its four maps, a `Node` one of its map of files. A
-- map with string keys is an association list (Common/GoMap); the order in which `range`
-- visits the keys to rename is an argument. An operation that changes the medium returns the
-- new one, or an error and no change. Readers and writers of a medium are records; a writer
-- changes the medium when it is closed. Locks are not modelled: `MemoryMedium` and `Node` have
-- none, and a method of `MockMedium` holds its lock from start to end. `time.Now()` is an
-- argument.
--
-- Numbers: bytes are numbers below 256, and a nil slice is `none` where the code tells it from
-- an empty one. The block number of a key stream is a `uint64` and wraps modulo 2^64. The
-- indentation level of JSON is an integer. Lengths and offsets are natural numbers, as the
-- code never makes one negative.
--
-- Fuel: a key stream takes as many rounds as it has bytes, since each round writes one at
-- least. The walks over the ancestors of a path take one more round than the length of the
-- parent, since the parent of a path is shorter, equal or ".". Links are resolved to a depth,
-- and the text of a link is read in a number of rounds, that are arguments; the walks over an
-- archive take a depth; the loop over parents of go/datanode takes rounds, since for some
-- paths it has no end. A loop that runs out of fuel gives the error `out_of_fuel`, which no
-- other code gives. That the rounds of the key streams and of the walks over ancestors are
-- enough is part of what the theorems on the streams and on `WriteMode` rest on, not an
-- assumption.
--
-- Parameters: the path functions of `dappco.re/go` that take paths apart (PathText), those
-- that depend on the operating system (Local.Platform), the file system and its links
-- (Local.System), Borg's DataNode (Borg), a medium that `Copy` or `CopyTo` writes to (Medium,
-- with `MemoryMedium` as an instance), the text and path functions of `dappco.re/go`
-- (CoreText, with an instance in CoreText/Plain), SHA-256 and the other hashes, the AEAD of
-- chacha20poly1305, the random source, base64, gzip, the compact form of JSON, archive/tar,
-- HKDF, the provider of key pairs, and the SQL statements of the store. Their laws are records,
-- most of them named IsLawful (IsCleaning, IsParted and IsSteady for the local medium), and each is
-- shown to hold of a concrete instance that the examples use.
--
-- Errors keep the sentinel that `errors.Is` finds; their texts are dropped.
--
-- Not modelled: `Node.Walk` and `Node.ExportFile`; `New`, `Close` and `Render` of the store;
-- the mediums of go/sqlite, go/s3 and go/pkg; `cube.Open` and the container format;
-- the registration of actions and handlers. A file system that changes between the
-- validation of a path and its use is not modelled. A `Workspace` or a medium is one that its
-- constructor made, whose medium is not nil; a nil `*Workspace` is modelled.
pub mod Borg
pub mod Common
pub mod CoreText
pub mod Cube
pub mod Datanode
pub mod Entries
pub mod Fsutil
pub mod Local
pub mod Medium
pub mod Memory
pub mod Mock
pub mod Node
pub mod PathText
pub mod Sigil
pub mod Storage
pub mod Store
pub mod Workspace
