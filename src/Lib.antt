-- ===== src/Lib.antt =====
-- Video meeting recorder: the server that joins video conferences at set times, records them with
-- FFmpeg and extends, completes or retries the recordings.
--
-- The parts and how they interact. The task service (internal/services/video_recording_task_service.go)
-- keeps the tasks in the database; its calls change their status and times. The scheduler
-- (internal/scheduler/video_scheduler.go) holds the pending tasks as cron entries, starts a recording
-- when its time has come and monitors it to its end. The coordinator (internal/recorder/coordinator.go)
-- runs the FFmpeg processes of a task and reconnects them. The conference connector
-- (internal/services/video_recording/huawei_conference_connector.go) calls a conference from the
-- terminal of a task, and locks that terminal by the row of its input configuration
-- (internal/models/input_config.go). The rate limiter (internal/services/rate_limiter.go) guards the
-- calls that come with an API key, and two kinds of signed tokens the previews and the recorded files
-- (internal/auth/hlstoken/hls_token.go, internal/auth/videoplaybacktoken/video_playback_token.go).
-- The login (internal/auth/local_auth.go) counts the failures of a user name
-- (internal/auth/rate_limiter.go), and makes the SM4 tokens of a session
-- (internal/auth/sm4_token.go). The middleware (internal/middleware) lets a request in that comes
-- with such a token or with an API key (internal/services/apikey_service.go). A recording that is
-- complete goes to the conversion service (internal/services/conversion_service.go).
--
-- Files and code.
--   Task            internal/models/video_recording_task.go: VideoRecordingTask, its status table
--                   (CanTransitionTo), GetTriggerTime, IsExpired, IsValid. Task/Lifecycle: status histories.
--   RateLimit       CheckRateLimit and its helpers, cleanupExpiredWindows, ResetAPIKey, GetAPIKeyStats. A
--                   window is the list of request times. RateLimit/History: calls and ticks in the order
--                   of time. RateLimit/Caps and RateLimit/DayCap: the limits.
--   Recorder        coordinator.go. Decimal: process keys. Filename: names and escapes. Source:
--                   buildRecordingInput. Command: buildRecordingCommand and the builders that it calls.
--                   Registry: StartRecordingWithConfig, StopRecording, monitorProcessWithKey,
--                   restartRecording, IsProcessAlive, GetRecordingStatus over the map of processes.
--                   Mapping: the inputs that a command opens. Stop: sequences of calls. Reconnect:
--                   attemptReconnect.
--   TaskService     StartTask, StopTask, CancelTask, RetryTask, DeleteTask, UpdateTaskStatus,
--                   UpdateTaskExtension: from the task that the database finds to the task it stores.
--                   Delete: DeleteTask and BatchDeleteTasks on the tables. Edit: CreateTask,
--                   CreateTaskAuto and UpdateTask on the tables; Edit/Auto, Edit/Limits and Edit/Stored:
--                   what they refuse, keep and store. Stuck: ClearStuckTasks.
--   Scheduler       AddTask, RemoveTask, SyncPendingTasks over the two maps and the cron. Entries and
--                   Sync: what they keep. Status: updateTaskStatus. Launch: the loop of
--                   executeTask that starts the recordings. Execute: the rest of executeTask, on
--                   the row of the task, the configurations and the processes; Execute/Started and
--                   Execute/Leak: how it ends. Monitor: monitorTask, monitorTaskEndTimeOnly and
--                   handleEndTimeReached. Runs: the maps executing, cancelFuncs, taskUpdateChans and
--                   taskEndTimes, by the critical sections of executeTask, monitorTask,
--                   CancelTaskExecution and UpdateTaskEndTime, in any order. Complete:
--                   completeTask, CancelTaskExecution and releaseHuaweiDevice.
--   InputConfig     input_config.go: the configuration, Lock, Unlock, IsLockedByTask, Validate.
--   Terminal        huawei_conference_connector.go over the table of configurations. Exclusive: who
--                   holds a terminal. Consistent: sequences of calls. Stale: ClearStaleTerminalLocks.
--   Token           What the two token services share: strings.Split, the signature, the claims. Hls:
--                   hls_token.go, with the index of identifiers; Hls/Verify and Hls/Cap: its tokens
--                   and its index. Playback: video_playback_token.go.
--   IpValidator     internal/auth/ip_validator.go, and checkIPRestrictions of local_auth.go. Ranges: what a
--                   range admits.
--   Login           rate_limiter.go and Login of local_auth.go (internal/auth). Limiter: what it counts.
--                   Capped: logins that overlap.
--   Sm4Token        sm4_token.go, with the users, roles, permissions and sessions of internal/models.
--                   RoundTrip: the pairs that it makes. Refresh: RefreshAccessToken and the revocations
--                   in any order.
--   Conversion      conversion_service.go. Primary: convertMKVToMP4. Calls: sequences of calls. Counted:
--                   the count of retries. Recovered: recoverLatestMKV. Ends: processTask.
--   ApiKey          apikey_service.go and internal/models/api_key.go. Strangers: the keys of other users.
--   Access          auth.go, apikey.go and permission.go of the middleware. Keys, Inherited and Created:
--                   requests with a key. Tokens: requests with a token. Precedence: with both.
--   State           Calls with an error result that change a state, in sequence.
--   Errors, Common  The sentinel errors, and lists, texts, maps and clock units on native numbers.
--   Fixtures        Sample data of the test modules.
--
-- Conventions. Times are nanoseconds since an origin, as natural numbers; a call reads the clock once.
-- What the database, the operating system, FFmpeg and the iteration order of a Go map answer are
-- arguments. The cron library is the record Scheduler.Cron, with what its documentation says of adding
-- and removing entries. A call that holds a lock is one step, and interleavings are sequences of steps; a login,
-- and a refresh of a token, which lock twice, are two steps. The scheduler's update of a status, which reads
-- and writes without a lock, is one step.
-- Logging, metrics and the audit log are left out.
--
-- Bounds and fuel. The chain of reconnections runs on fuel; one unit more than the attempts that the
-- limit of a process leaves is enough. The loop that evicts the oldest identifiers of HLS tokens runs
-- on fuel, one unit for each entry. All other loops are structural.
--
-- The conversion service has three workers; one step takes a task from the queue of a hundred and
-- processes it to its end, its cancel functions and the scan after a conversion are left out.
--
-- Not modelled. gorm, the Huawei client and manager, SM4-GCM, base64, HMAC, JSON, bcrypt, the package
-- net, the file system and FFmpeg are parameters. Transcription, splitting and the slide editor, Active
-- Directory, the rules for passwords, the files of videos, the HTTP handlers, the migrations,
-- configuration loading and the web client are I/O, glue or calls of other libraries for the greater
-- part, and this library leaves them out.
pub mod Common
pub mod Errors
pub mod State
pub mod Task
pub mod InputConfig
pub mod Terminal
pub mod Token
pub mod IpValidator
pub mod Login
pub mod RateLimit
pub mod Recorder
pub mod TaskService
pub mod Scheduler
pub mod Sm4Token
pub mod Conversion
pub mod ApiKey
pub mod Access
pub mod Fixtures
