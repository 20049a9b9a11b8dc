-- ===== src/Lib.antt =====
-- The worker of the ecosystem metrics pipeline: it scans Go modules with govulncheck or with an
-- analysis binary, and writes one row per result to BigQuery.
--
-- How the parts interact. A request names a module at a version (internal/scan). The worker
-- (internal/worker) asks the store of work states, or its map of work versions, whether the module
-- was scanned already; then it downloads and prepares the module (internal/modules), runs the
-- command, classifies the error or converts the findings (internal/govulncheck,
-- internal/govulncheckapi, internal/osv, internal/analysis), encodes the version for sorting
-- (internal/version), and uploads the rows (internal/bigquery). An enqueue request puts one scan
-- task per module on a queue (internal/queue), for a job that can be canceled (internal/jobs). Modules
-- come from the module proxy (internal/proxy). Error values (internal/derrors) carry the kind that
-- becomes the error category of a row.
--
-- Concurrent scans share a counter and the Go caches. Scans can run in a sandbox (internal/sandbox).
-- The command ejobs (cmd/ejobs) starts, watches and cancels jobs through the worker's URLs.
--
-- Files and what they model:
--   Derrors, Derrors/Category      internal/derrors/derrors.go: error values, Wrap, Cleanup,
--                                  CategorizeError
--   Version/Sorting                internal/version/version.go: ForSorting
--   Version/Pseudo                 IsPseudo, with its regular expression as data
--   Version/Latest                 Later, LatestOf, LatestVersion
--   Scan/ModulePath                internal/scan/parse.go: ParseModuleURLPath, Path
--   Scan/Params                    ParseParams, FormatParams
--   Scan/Corpus                    ReadFileLines, ParseCorpusFile
--   Bigquery/Upload                internal/bigquery/bigquery.go: UploadMany
--   Bigquery/Schemas               SchemaString and SchemaVersion
--   Bigquery/Tables                CreateOrUpdateTable, CreateDataset, ForEachRow, PartitionQuery
--   Osv, Osv/ReviewStatus          internal/osv
--   Govulncheck                    internal/govulncheck/govulncheck.go: rows and work versions
--   Govulncheck/Requests           the path and parameters of a scan request, ParseRequest
--   Govulncheck/Messages           internal/govulncheckapi/handler.go, internal/govulncheck/handler.go
--   Govulncheck/States             SetWorkState and GetWorkState
--   Govulncheck/Command            RunGovulncheckCmd, UnmarshalAnalysisResponse
--   Govulncheck/Findings           vulnsForScanMode of internal/worker/govulncheck_scan.go
--   Worker/Classify                the tests on error texts, and the switches that use them
--   Worker/Prepare                 internal/worker/scan.go: doScan, prepareModule, writeResults
--   Worker/Scans                   internal/worker/scan.go: the calls of doScan that run at once,
--                                  and cleanGoCaches
--   Modules                        internal/modules/modules.go: Download, writeZip
--   Paths                          package path/filepath, as far as the program uses it
--   Sandbox                        internal/sandbox: Output and Validate, and the runner inside
--   Ejobs                          cmd/ejobs/main.go: actions, httpGet, requestJSON
--   Ejobs/Wait, Ejobs/Show         doWait; doShow, doList, doCancel and doResults
--   Ejobs/Start, Ejobs/Upload      doStart, checkIsLinuxAmd64; uploadAnalysisBinary
--   Ejobs/Commands                 the table of commands, and run
--   Ejson2csv                      internal/ejson2csv/ejson2csv.go: Process
--   Worker/Modes                   internal/worker/govulncheck_scan.go: CheckModule, CompareModule
--   Worker/Scanner                 internal/worker/govulncheck_scan.go: handleScan, ScanModule
--   Worker/Analysis                internal/analysis/analysis.go: requests, diagnostics, rows, tasks
--   Worker/Analysis/Positions      parsePosition, sourceURL, readSource, addSource
--   Worker/Analysis/Running         running the binary, and the map of work versions
--   Worker/Analysis/Scan           analysisServer.handleScan with the counters of its job
--   Worker/Enqueue                 internal/worker/enqueue.go, internal/worker/govulncheck_enqueue.go
--                                  and analysisServer.handleEnqueue; Jobs: the job that it makes
--   Worker/Server                  internal/worker/server.go: serveError, reqMonitorHandler
--   Queue                          internal/queue/queue.go: the names and requests of tasks
--   Queue/InMemory                 the queue in memory, as steps of its goroutines
--   Proxy, Proxy/Kept              internal/proxy/client.go, and the cache of internal/proxy/cache.go
--   Vulndb, Worker/Vulndb          internal/vulndb/vulndb.go and internal/worker/vulndb.go
--   Requests                       internal/vulndbreqs: the daily counts of vulnerability DB requests
--   Fstore, Jobs, Worker/Jobs      internal/fstore, internal/jobs and internal/worker/jobs.go
--
-- A Go string is a list of bytes, an error result is an option, and a function that can panic gives
-- `Ran` or an option. State is passed explicitly: the cached work version, the map of work
-- versions, the rows written and the counters incremented are results. What the program asks of the
-- module proxy, the go command, Firestore, BigQuery and the file system are fields of the records
-- `World` and `Tools`, and likewise `Http` for the proxy client, `Firestore`, `Service` for the
-- tables of BigQuery, `Sources` for logs and buckets, `Conversions` for package strconv and
-- `Semver` for golang.org/x/mod/semver: none of them is defined here. The loops of UploadMany run on fuel, the number of rows for the outer loop and
-- the size of the chunk for the inner one: each round of the outer loop puts at least one row, and
-- each round of the inner one halves the chunk. The loop over days runs on the number of days that are left, and
-- the loop of doWait on a bound on its polls: it returns at the first poll that finds the job done, or
-- fails, if the bound is greater than the number of polls before. All other loops follow their lists.
--
-- What runs at once is a relation of steps: Worker/Scans for the calls of doScan on their counter,
-- whose 32 bits wrap around, each insecure or not and with a `go clean` that may fail, and Queue/InMemory for the dispatcher, its workers, the callers and the
-- end of the context. The actions of ejobs are a monad: each gives its events in order, the number
-- of requests so far, and how it ends; the answer to a request depends on its number, so that the
-- worker can change between two of them.
--
-- Not modelled: logging, reporting and tracing, the text of most SQL queries, HTTP and JSON: they are
-- calls of libraries. The construction of the worker's clients, the configuration, which is read
-- from the environment, the module database, the building of binaries and the small commands around
-- the packages are glue, and the server of internal/proxy/proxytest is for tests.
pub mod Ejson2csv
pub mod Sandbox
pub mod Ejobs
pub mod Modules
pub mod Paths
pub mod Proxy
pub mod Requests
pub mod Fstore
pub mod Jobs
pub mod Vulndb
pub mod Queue
pub mod Prelude
pub mod Derrors
pub mod Version
pub mod Scan
pub mod Bigquery
pub mod Osv
pub mod Govulncheck
pub mod Worker
