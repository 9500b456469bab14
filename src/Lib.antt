-- ===== src/Lib.antt =====
-- sub-sdk, a Go library of helpers for services: a verification library of its own logic.
--
-- The program is a set of packages that services call. Requests carry tokens (jwtx) and come back as
-- answers whose code and message are read off an error (errx, respx, response). Queries are structs
-- with search tags that gormx resolves into SQL conditions. toolx reads workbooks into tables,
-- websocketx sends messages to browsers, filex packs directories into archives and unpacks
-- them, condition judges structs, and stringx and format turn names into other names. The packages meet in few places: format uses stringx, and the two response
-- packages use errx.
--
-- Files and the code they are about:
--   Base, Go       shared helpers; the parts of Go's language and standard library that the code uses
--                  (bytes and UTF-8, strings.Split, Join, Index, ToLower, ToUpper, strconv.ParseInt,
--                  decimal numbers, path/filepath, the Latin-1 range of package unicode)
--   Condition      condition/condition.go: EvaluateCondition, compareString, compareInt
--   Websocketx     websocketx/hub.go and client.go: Hub.Run, ServeWs and the channel of writePump
--   Stringx        stringx/string.go (Blank, Words, FirstLetter), fmt.go (Identifiers), cache.go (Keys)
--   Format         format/format.go: FileNamingFormat, doFormat, split, getStyle, transferTo
--   Gormx          gormx/condition.go (Tag, Condition) and query.go (Query): makeTag,
--                  ResolveSearchQuery and the condition types; gormx/search.go and the page of
--                  gormx/modelx/model.go (Scope), gormx/datapermission.go (Permission), the writes
--                  and cached reads of gormx/cachedgorm.go and gormx/batchx/batchx.go (Cached)
--   Toolx          toolx/tag.go (TagBody) and excelImport.go (Import): GetTag, GetFieldByTag, the sheets
--                  of ReadExcelIo, the rows of CreateMap, GenDataInt and GenDataChar (Import/Rows), the
--                  batches and the transaction of SaveDb, and SaveDbByName as a whole (Import/SaveDb)
--   Errx           errx: the codes, the message table and CodeError
--   Respx,
--   Response       parseError of respx/response.go and of response/response.go
--   Jwtx           jwtx/jwtx.go: ParseToken, CheckToken, GetTokenClaims and the lookups of one claim
--   Captchax       captchax/store.go: Set, Get and Verify against a cache
--   Casbinx        casbinx/casbin.go: UpdateCasbin, ClearCasbin and GetCasbinByAuthorityId against an
--                  enforcer
--   Pathx          pathx/path.go: FindGoModPath, FindProjectPath, PathFromGoSrc and JoinPackages;
--                  pathx/file.go (Files): names, homes, creation, copies and counts
--   Filex          filex/zip.go and tar.go: ZipDir, CompressFilesOrFolds and their variants (Archive),
--                  archives in parts (Split), UnzipDir and DecompressTarGz (Extract); zstd-upload.go:
--                  CompressAndUpload (Upload) and DownloadAndDecompress (Download); zstd.go: CompressZstd
--                  and DecompressZstd (Zstd); file.go (Files)
--   Cryptx         cryptx/decode.go (Replace): ReplaceStrings, EscapeJson and InStringSlice
--   Converter      converter/converter.go: ConvertStringDataType and mayConvertNullType
--
-- How the code is shown. A string is the list of its bytes where the code indexes bytes, and the list
-- of its code points where it ranges over runes. A panic is a value of Run, so a function that may
-- panic returns a Run. An error result is an Option or a sum of the module. Reflection is shown as
-- data: a struct is the list of its fields with their tags. A Go map is a list of pairs in the order
-- of insertion; the columns of a row belong to different fields, so that no theorem rests on the order of
-- its iteration. A time is Unix seconds in an int64, with its wrap-around. The hub is a step relation: its goroutine moves between the select and the
-- range over its clients, and every other goroutine may move between its moves. A directory tree is a
-- value whose nodes may hold an error in place of what they would answer, and filepath.Walk visits it
-- in the order of its names. A function that writes files returns the calls that it makes, in their
-- order, and stops at the first call that a parameter, the answers of the file system, refuses. The errors
-- of Close, Commit and Del, which the code drops, are parameters too: what is left if they fail. A path
-- is its text; filepath.Clean, Join, Rel and Base are functions on texts.
--
-- Bounds and fuel. The batches of an import run on fuel, one round for each row, which is enough since
-- each round takes at least one row; a number is printed on one round more than its value, which is at
-- least its count of digits; every other loop is structural. The block that a download reads ahead holds
-- 512 bytes and the buffer of a client 256 messages, as in the code.
--
-- Not modelled: sockets, HTTP and databases, which are I/O; excelize, golang-jwt, gorm, casbin,
-- the cache of go-zero and golang.org/x/text, which are parameters where the code rests on them; the
-- bytes of the formats zip, tar and zstd, so that an archive is the list of its entries; the code
-- generator of gormx and its connections; renaming of whole directories; the hashes and random texts of
-- cryptx; console.
pub mod Base
pub mod Go
pub mod Condition
pub mod Websocketx
pub mod Stringx
pub mod Format
pub mod Gormx
pub mod Toolx
pub mod Cryptx
pub mod Errx
pub mod Respx
pub mod Response
pub mod Jwtx
pub mod Captchax
pub mod Casbinx
pub mod Converter
pub mod Pathx
pub mod Filex
